-- ===== src/Users/Features/Tests.antt =====
-- Tests and instances of the theorems on features.
use unified_communication_ba.Common.{
  ◌≡◌, ◌≢◌, ◌↔◌, refl, true, false, some, [], ◌∷◌, codes, get, In, list_eq, nat_eq,
}
use unified_communication_ba.Models.{Tenant, User, user}
use unified_communication_ba.Users.Features.{
  feature_keys, effective_features, effective_sip_domain, is_feature_enabled,
}
use unified_communication_ba.Users.Features.Ceiling.{get-effective_features}

abbrev acme : Tenant
acme = record {
  id = 1;
  freeswitch_tenant_uuid = 65;
  tenant_code = codes "HVA";
  tenant_name = codes "Acme";
  encrypted_api_key = [];
  features = (codes "calling", true) ∷ (codes "messaging", true) ∷ (codes "fax", false) ∷ [];
  sip_domain = codes "sip.acme";
  is_active = true;
  telnyx_messaging_profile_id = [];
}

-- The user switches messaging off and asks for fax.
abbrev ann : User
ann = record {
  id = 2;
  tenant = some 1;
  email = codes "ann";
  password = [];
  role = user;
  is_superuser = false;
  is_staff = false;
  is_team_lead = false;
  is_active = true;
  is_first_login = false;
  must_change_password = false;
  first_name = [];
  last_name = [];
  sip_domain = [];
  fax_boxes = [];
  features = (codes "messaging", false) ∷ (codes "fax", true) ∷ [];
  voicemail_boxes = [];
}

ann-features :
    effective_features (some acme) ann
    ≡ (codes "calling", true) ∷ (codes "messaging", false) ∷ (codes "fax", false) ∷ []
unfolding effective_features
ann-features = refl

ann-domain : effective_sip_domain (some acme) ann ≡ codes "sip.acme"
unfolding effective_sip_domain
ann-domain = refl

get-effective_features_example :
    (get (codes "calling") (effective_features (some acme) ann) ≡ some true) ↔ (
      In (codes "calling") feature_keys
      × ((t : Tenant) × (some acme ≡ some t) × (is_feature_enabled t (codes "calling") ≡ true))
      × (get (codes "calling") ann.features ≢ some false))
get-effective_features_example = get-effective_features (some acme) ann (codes "calling")
