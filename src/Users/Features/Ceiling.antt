-- ===== src/Users/Features/Ceiling.antt =====
-- `effective_features` of apps/users/models.py, against the features of the tenant and of the user.
use mathlib.Core.Option.{some-injective}
use unified_communication_ba.Common.{
  ◌≡◌, ◌≢◌, ◌↔◌, refl, ap, inl, inr, Bool, true, false, ◌&&◌, not, Option, none, some, List, [],
  ◌∷◌, Text, codes, ◌==◌, nat_eq, list_eq, list_beq_iff, map, select, Dict, get, or_default, In,
  arith,
}
use unified_communication_ba.Models.{Tenant, User}
use unified_communication_ba.Users.Features.{
  feature_keys, tenant_features, effective_feature, effective_features, is_feature_enabled,
}

get-map :
    (f : Text → Bool) (k : Text) (ks : List Text)
    → (get k (map (λ key. (key, f key)) ks) ≡ some true) ↔ (In k ks × (f k ≡ true))
unfolding get
get-map f k [] = ground arith
get-map f k (x ∷ ks) = ground (arith, list_beq_iff k x, λ (e : k ≡ x). ap f e, get-map f k ks)

get-without :
    (k v : Text) (d : Dict Text Bool)
    → (k == v) ≡ false
    → get k (select (λ (e : Text × Bool). not (e.0 == v)) d) ≡ get k d
unfolding get select
get-without k v [] h = refl
get-without k v ((j, b) ∷ d) h =
    ground (arith, get-without k v d h, list_beq_iff k j, list_beq_iff j v, list_beq_iff k v)

not_voicemail : (k : Text) → In k feature_keys → (k == codes "voicemail") ≡ false
not_voicemail k (inl e) = rw e refl
not_voicemail k (inr (inl e)) = rw e refl
not_voicemail k (inr (inr (inl e))) = rw e refl
not_voicemail k (inr (inr (inr e))) = absurd e

and-not_off :
    (a b : Option Bool)
    → ((or_default a false && or_default b true) ≡ true)
      ↔ ((or_default a false ≡ true) × (b ≢ some false))
and-not_off none b = ground arith
and-not_off (some a) none = ground arith
and-not_off (some a) (some true) = ground arith
and-not_off (some a) (some false) = ground arith

no_tenant : (u : User) (k : Text) → effective_feature none u k ≡ false
unfolding effective_feature tenant_features get
no_tenant u k = refl

effective_feature-enabled :
    (t : Tenant) (u : User) (k : Text)
    → In k feature_keys
    → (effective_feature (some t) u k ≡ true)
      ↔ ((is_feature_enabled t k ≡ true) × (get k u.features ≢ some false))
unfolding effective_feature tenant_features is_feature_enabled
effective_feature-enabled t u k i =
    rw (get-without k (codes "voicemail") t.features (not_voicemail k i))
      (and-not_off (get k t.features) (get k u.features))

-- A feature is on for a user exactly where it is one of calling, messaging and fax, the user has a tenant
-- that enables it, and the user does not switch it off.
pub get-effective_features :
    (o : Option Tenant) (u : User) (k : Text)
    → (get k (effective_features o u) ≡ some true) ↔ (
        In k feature_keys
        × ((t : Tenant) × (o ≡ some t) × (is_feature_enabled t k ≡ true))
        × (get k u.features ≢ some false))
unfolding effective_features
get-effective_features none u k = (
  λ h.
      let (i, e) = (get-map (effective_feature none u) k feature_keys).0 h in
      absurd (ground (arith, no_tenant u k)),
  λ a. let e = a.1.1 in cc,
)
get-effective_features (some t) u k = (
  λ h.
      let (i, e) = (get-map (effective_feature (some t) u) k feature_keys).0 h in
      let (a, b) = (effective_feature-enabled t u k i).0 e in (i, (t, refl, a), b),
  λ a.
      let (i, (t', e, c), b) = a in
      let c' : is_feature_enabled t k ≡ true = rw (some-injective _ _ e) c in
      (get-map (effective_feature (some t) u) k feature_keys).1
        (i, (effective_feature-enabled t u k i).1 (c', b)),
)
