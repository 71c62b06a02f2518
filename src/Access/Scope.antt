-- ===== src/Access/Scope.antt =====
-- apps/common/tenant_resolver.py: which tenant a request gets.
use unified_communication_ba.Common.{
  ℕ, ◌≡◌, ◌⊎◌, refl, sym, ap, ◌∙◌, sort_by, inl, inr, Bool, true, false, not, Option, none, some,
  List, Text, nonempty, strip, lower, ◌==◌, nat_eq, list_eq, nat_beq_iff, list_beq_iff, first-In,
  select, In, In-select, In-sort_by, Bool-cases,
}
use unified_communication_ba.Models.{Tenant, User}
use unified_communication_ba.Access.{
  is_super_admin, ScopedTenant, found, no_tenant, tenant_not_found, or_other, tenant_with_uuid,
  tenant_by_code, found_or, tenant_of_user, named_tenant, get_scoped_tenant,
}

-- The text is a UUID of the tenant, or its code in any case.
pub data Names (parse_uuid : Text → Option ℕ) (name : Text) (t : Tenant) : Type 0 where
  by_id : parse_uuid name ≡ some t.id → Names parse_uuid name t
  by_freeswitch_uuid : parse_uuid name ≡ some t.freeswitch_tenant_uuid → Names parse_uuid name t
  by_code : lower t.tenant_code ≡ lower name → Names parse_uuid name t

found_or-found :
    (e : ScopedTenant) (o : Option Tenant) (t : Tenant)
    → found_or e o ≡ found t
    → (o ≡ some t) ⊎ (e ≡ found t)
found_or-found e none t h = inr h
found_or-found e (some x) t h = inl cc

or_other-some :
    (a b : Option Tenant) (t : Tenant) → or_other a b ≡ some t → (a ≡ some t) ⊎ (b ≡ some t)
or_other-some none b t h = inr h
or_other-some (some x) b t h = inl h

module _ (parse_uuid : Text → Option ℕ) (name_before : Text → Text → Bool) (ts : List Tenant) where
  uuid-Names :
      (name : Text) (o : Option ℕ) (t : Tenant)
      → parse_uuid name ≡ o
      → tenant_with_uuid o ts ≡ some t
      → In t ts × Names parse_uuid name t
  unfolding tenant_with_uuid
  uuid-Names name none t e h = cc
  uuid-Names name (some n) t e h = elim (or_other-some _ _ t h) [
    | inl f ↦
        let (i, c) = first-In (λ (t : Tenant). t.id == n) t ts f in
        (i, by_id (e ∙ ap some (sym ((nat_beq_iff t.id n).0 c))))
    | inr f ↦
        let (i, c) = first-In (λ (t : Tenant). t.freeswitch_tenant_uuid == n) t ts f in
        (i, by_freeswitch_uuid (e ∙ ap some (sym ((nat_beq_iff t.freeswitch_tenant_uuid n).0 c))))
  ]

  code-Names :
      (name : Text) (t : Tenant)
      → tenant_by_code name_before name ts ≡ some t
      → In t ts × Names parse_uuid name t
  unfolding tenant_by_code
  code-Names name t h =
      let rows = select (λ (t : Tenant). lower t.tenant_code == lower name) ts in
      let before = λ (a b : Tenant). not (name_before b.tenant_name a.tenant_name) in
      let (i, c) = first-In (λ _. true) t (sort_by before rows) h in
      let (j, d) =
        (In-select (λ (t : Tenant). lower t.tenant_code == lower name) t ts).0
          ((In-sort_by before t rows).0 i) in
      (j, by_code ((list_beq_iff (lower t.tenant_code) (lower name)).0 d))

  named-Names :
      (raw : Text) (t : Tenant)
      → named_tenant parse_uuid name_before raw ts ≡ found t
      → In t ts × Names parse_uuid (strip raw) t
  unfolding named_tenant
  named-Names raw t = elim (Bool-cases (nonempty raw)) [
    | inl e ↦ rw e (λ h. elim (found_or-found (tenant_not_found (strip raw)) _ t h) [
      | inl f ↦ elim (or_other-some _ _ t f) [
        | inl g ↦ uuid-Names (strip raw) (parse_uuid (strip raw)) t refl g
        | inr g ↦ code-Names (strip raw) t g
      ]
      | inr f ↦ cc
    ])
    | inr e ↦ rw e (λ h. cc)
  ]

  of_user : (o : Option ℕ) (t : Tenant) → tenant_of_user o ts ≡ some t → In t ts × (o ≡ some t.id)
  unfolding tenant_of_user
  of_user none t h = cc
  of_user (some n) t h =
      let (i, c) = first-In (λ (t : Tenant). t.id == n) t ts h in
      (i, ap some (sym ((nat_beq_iff t.id n).0 c)))

  -- The tenant that a request gets is one of the table, and it is that of the user, unless the user is a
  -- superadmin and the request names the tenant by a UUID or its code.
  pub get_scoped_tenant-Names :
      (u : User) (raw : Text) (t : Tenant)
      → get_scoped_tenant parse_uuid name_before u raw ts ≡ found t
      → In t ts
        × (((is_super_admin u ≡ false) × (u.tenant ≡ some t.id))
            ⊎ ((is_super_admin u ≡ true) × Names parse_uuid (strip raw) t))
  unfolding get_scoped_tenant
  get_scoped_tenant-Names u raw t = elim (Bool-cases (is_super_admin u)) [
    | inl e ↦ rw e (λ h. let (i, n) = named-Names raw t h in (i, inr (refl, n)))
    | inr e ↦ rw e (λ h. elim (found_or-found no_tenant (tenant_of_user u.tenant ts) t h) [
      | inl f ↦ let (i, c) = of_user u.tenant t f in (i, inl (refl, c))
      | inr f ↦ cc
    ])
  ]
