-- ===== src/Users/Features.antt =====
-- apps/users/models.py, the properties of a user that its tenant limits or supplies, with the feature
-- helpers of apps/tenants/models.py. The tenant of the user is an argument.
use unified_communication_ba.Common.{
  ℕ, Bool, true, false, ◌&&◌, not, Option, none, some, List, [], ◌∷◌, Text, codes, nonempty, ◌==◌,
  nat_eq, list_eq, map, select, if◌then◌else◌, Dict, get, or_default,
}
use unified_communication_ba.Models.{Tenant, User}
pub mod Ceiling
mod Tests

abbrev pub feature_keys : List Text
feature_keys = codes "calling" ∷ codes "messaging" ∷ codes "fax" ∷ []

-- The features of the tenant without the one that only follows from another.
unfoldable pub tenant_features : Option Tenant → Dict Text Bool
unfolding select
tenant_features none = []
tenant_features (some t) = select (λ (e : Text × Bool). not (e.0 == codes "voicemail")) t.features

unfoldable pub effective_feature : Option Tenant → User → Text → Bool
unfolding tenant_features get
effective_feature t u key =
    or_default (get key (tenant_features t)) false && or_default (get key u.features) true

unfoldable pub effective_features : Option Tenant → User → Dict Text Bool
unfolding effective_feature
effective_features t u = map (λ key. (key, effective_feature t u key)) feature_keys

abbrev pub domain_of_tenant : Option Tenant → Text
domain_of_tenant none = []
domain_of_tenant (some t) = t.sip_domain

unfoldable pub effective_sip_domain : Option Tenant → User → Text
effective_sip_domain t u = if nonempty u.sip_domain then u.sip_domain else domain_of_tenant t

-- `bool(self.features.get(feature, False))`
unfoldable pub is_feature_enabled : Tenant → Text → Bool
unfolding get
is_feature_enabled t feature = or_default (get feature t.features) false
