-- ===== src/Users/Create/Ready.antt =====
-- The steps of creating a user (apps/users/serializers.py) keep the resources of users sound.
use mathlib.Core.Path.{subst}
use mathlib.Core.Option.{some-injective}
use unified_communication_ba.Common.{
  ℕ, ◌≡◌, inl, inr, refl, sym, ap, ◌∙◌, false, not, ◌&&◌, Option, none, some, List, [], ◌∷◌, Text,
  codes, nat_eq, nat_beq_iff, list_eq, In, arith, Bool-cases,
}
use unified_communication_ba.Models.{Tenant, User, Extension, Did}
use unified_communication_ba.Users.Features.{is_feature_enabled}
use unified_communication_ba.Users.Assign.{give_extension, grant_row, is_of_other}
use unified_communication_ba.Users.Assign.Sound.{IsAssigned}
use unified_communication_ba.Users.Assign.Given.{joined_some}
use unified_communication_ba.Users.Assign.Rows.{give_extension-IsAssigned, granted-IsAssigned}
use unified_communication_ba.Users.Create.Defs.{ok, ResolvedRow, People, Helpers}
use unified_communication_ba.Users.Create.Refs.{resolve_extension, resolve_did, is_blank}
use unified_communication_ba.Users.Create.Save.{
  with_extension, create_extension_of, with_did, create_dids, create_dids_of,
}
use unified_communication_ba.Users.Create.Found.{resolve_extension-In, resolve_did-In}
use unified_communication_ba.Users.Create.Caller.{next_of-ok, ok-injective}

-- The tables are sound, the users are `us`, and the user `u` of the tenant is among them.
pub record IsReady (us : List User) (t : Tenant) (u : User) (p : People) : Type 0 where
  pub assigned : IsAssigned p.accounts
  pub stored : In u p.accounts.users
  pub users : p.accounts.users ≡ us
  pub of_tenant : u.tenant ≡ some t.id

same_tenant :
    (o : Option ℕ) (t k : ℕ) → o ≡ some t → k ≡ t → (is_of_other o k ≡ false) × (o ≡ some k)
same_tenant none t k e f = absurd cc
same_tenant (some id) t k e f =
    let g : id ≡ t = some-injective _ _ e in (ground (arith, nat_beq_iff k id), ap some (g ∙ sym f))

module _ (w : Helpers) (us : List User) (t : Tenant) (u : User) where
  with_extension-IsReady :
      (p p' : People) (e : Extension)
      → IsReady us t u p
      → In e p.accounts.extensions
      → e.tenant ≡ t.id
      → p' ≡ record p { accounts = give_extension u e p.accounts }
      → IsReady us t u p'
  unfolding give_extension
  with_extension-IsReady p p' e ready i f g =
      let (other, own) = same_tenant u.tenant t.id e.tenant ready.of_tenant f in
      subst (IsReady us t u) (sym g) (record {
        assigned = give_extension-IsAssigned p.accounts ready.assigned u e ready.stored i other;
        stored = subst (In u) (sym (joined_some u e.tenant p.accounts.users own)) ready.stored;
        users = joined_some u e.tenant p.accounts.users own ∙ ready.users;
        of_tenant = ready.of_tenant;
      })

  with_did-IsReady :
      (r : ResolvedRow) (p p' : People) (o : Option Did)
      → IsReady us t u p
      → ((d : Did) → o ≡ some d → In d p.accounts.dids × (d.tenant ≡ t.id))
      → with_did u r p o ≡ ok p'
      → IsReady us t u p'
  with_did-IsReady r p p' none ready found h = absurd cc
  with_did-IsReady r p p' (some d) ready found h =
      let (i, f) = found d refl in
      let (other, own) = same_tenant u.tenant t.id d.tenant ready.of_tenant f in
      let k = granted-IsAssigned p.accounts ready.assigned u d ready.stored i other in
      let a = record p.accounts { user_dids = grant_row u.id d.id p.accounts.user_dids } in
      let s : IsAssigned a =
        subst (λ (us : List User). IsAssigned (record a { users = us }))
          (joined_some u d.tenant p.accounts.users own) k in
      subst (IsReady us t u) (ok-injective _ p' h) (record {
        assigned = s;
        stored = ready.stored;
        users = ready.users;
        of_tenant = ready.of_tenant;
      })

  some_extension-IsReady :
      (p p' : People) (o : Option Extension)
      → IsReady us t u p
      → ((e : Extension) → o ≡ some e → In e p.accounts.extensions × (e.tenant ≡ t.id))
      → with_extension u p o ≡ ok p'
      → IsReady us t u p'
  some_extension-IsReady p p' none ready found h = absurd cc
  some_extension-IsReady p p' (some e) ready found h =
      let (i, f) = found e refl in
      with_extension-IsReady p p' e ready i f (sym (ok-injective _ p' h))

  pub create_extension_of-IsReady :
      (ref : Text) (p p' : People)
      → IsReady us t u p
      → create_extension_of w ref t u p ≡ ok p'
      → IsReady us t u p'
  unfolding create_extension_of
  create_extension_of-IsReady ref p p' ready h = elim (Bool-cases (is_blank ref)) [
    | inl e ↦ subst (IsReady us t u) (ok-injective p p' (rw e at h)) ready
    | inr e ↦ elim (Bool-cases (is_feature_enabled t (codes "calling"))) [
      | inr f ↦ let q = rw (e, f, create_extension_of) at h in absurd cc
      | inl f ↦
          some_extension-IsReady p p' (resolve_extension w ref t.id p.accounts.extensions) ready
            (resolve_extension-In w ref t.id p.accounts.extensions)
            (rw (e, f, create_extension_of) at h)
    ]
  ]

  create_dids-IsReady :
      (rs : List ResolvedRow) (p p' : People)
      → IsReady us t u p
      → create_dids w t u rs p ≡ ok p'
      → IsReady us t u p'
  unfolding create_dids
  create_dids-IsReady [] p p' ready h = subst (IsReady us t u) (ok-injective p p' h) ready
  create_dids-IsReady (r ∷ rs) p p' ready h =
      let o = resolve_did w r.did_ref t.id p.accounts.dids in
      let (q, e, f) = next_of-ok (with_did u r p o) (λ (q : People). create_dids w t u rs q) p' h in
      create_dids-IsReady rs q p'
        (with_did-IsReady r p q o ready (resolve_did-In w r.did_ref t.id p.accounts.dids) e) f

  pub create_dids_of-IsReady :
      (rs : List ResolvedRow) (p p' : People)
      → IsReady us t u p
      → create_dids_of w t u rs p ≡ ok p'
      → IsReady us t u p'
  unfolding create_dids_of
  create_dids_of-IsReady [] p p' ready h = subst (IsReady us t u) (ok-injective p p' h) ready
  create_dids_of-IsReady (r ∷ rs) p p' ready h =
      elim (Bool-cases (
        not (is_feature_enabled t (codes "calling"))
        && not (is_feature_enabled t (codes "messaging")))) [
          | inl e ↦ let q = rw (e, create_dids_of) at h in absurd cc
          | inr e ↦ create_dids-IsReady (r ∷ rs) p p' ready (rw (e, create_dids_of) at h)
        ]
