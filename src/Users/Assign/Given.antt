-- ===== src/Users/Assign/Given.antt =====
-- `give_extension`: the rows after a user has got an extension (apps/users/views.py).
use mathlib.Core.Path.{subst}
use unified_communication_ba.Common.{
  In-update_where, ℕ, ◌≡◌, ◌≢◌, ◌⊎◌, inl, inr, refl, sym, ap, ◌∙◌, true, false, Option, none, some,
  List, ◌==◌, nat_eq, nat_beq_iff, list_eq, option_eq, option_beq_iff, update_where, In, Distinct,
  Distinct-key, arith,
}
use unified_communication_ba.Models.{User, Extension}
use unified_communication_ba.Users.Assign.Tables.{is_of_other, join_tenant, release, give}
use unified_communication_ba.Users.Assign.Sound.{
  ids_of_users, extension_ids, KeptUser, ids-update_users, update-KeptUser, ids-update_extensions,
}

is_of_other-some : (id tenant : ℕ) → is_of_other (some id) tenant ≡ false → some id ≡ some tenant
is_of_other-some id tenant h = ap some (ground (arith, nat_beq_iff tenant id))

none_or_tenant :
    (o : Option ℕ) (tenant : ℕ) → is_of_other o tenant ≡ false → (o ≡ none) ⊎ (o ≡ some tenant)
none_or_tenant none tenant h = inl refl
none_or_tenant (some id) tenant h = inr (is_of_other-some id tenant h)

-- A user who joins the tenant of a resource.
module _ (u : User) (tenant : ℕ) where
  joined_none :
      (us : List User)
      → u.tenant ≡ none
      → join_tenant u tenant us
        ≡ update_where (λ (x : User). x.id == u.id) (λ x. record x { tenant = some tenant }) us
  unfolding join_tenant
  joined_none us e = rw e refl

  pub joined_some : (us : List User) → u.tenant ≡ some tenant → join_tenant u tenant us ≡ us
  unfolding join_tenant
  joined_some us e = rw e refl

  pub ids-join_tenant :
      (us : List User)
      → is_of_other u.tenant tenant ≡ false
      → ids_of_users (join_tenant u tenant us) ≡ ids_of_users us
  ids-join_tenant us h = elim (none_or_tenant u.tenant tenant h) [
    | inl e ↦
        ap ids_of_users (joined_none us e)
        ∙ ids-update_users (λ x. record x { tenant = some tenant }) (λ (x : User). x.id == u.id)
            (λ x. refl) us
    | inr e ↦ ap ids_of_users (joined_some us e)
  ]

  -- A row after the join is kept, and that of the user has the tenant.
  abbrev pub Joined : List User → User → Type 0
  Joined us x = KeptUser us x × (x.id ≡ u.id → x.tenant ≡ some tenant)

  same_user :
      (us : List User) (x : User)
      → Distinct (ids_of_users us)
      → In u us
      → In x us
      → x.id ≡ u.id
      → x ≡ u
  same_user us x d i j e = Distinct-key (λ (y : User). y.id) us x u d j i e

  updated-Joined :
      (us : List User) (x : User)
      → u.tenant ≡ none
      → Distinct (ids_of_users us)
      → In u us
      → In x (update_where (λ (x : User). x.id == u.id) (λ x. record x { tenant = some tenant }) us)
      → Joined us x
  updated-Joined us x n d i j =
      let p = λ (y : User). y.id == u.id in
      let f = λ (y : User). record y { tenant = some tenant } in
      let same : (y : User) → In y us → p y ≡ true → y ≡ u =
        λ y k h. same_user us y d i k ((nat_beq_iff y.id u.id).0 h) in
      (
        update-KeptUser f p (λ y. refl) us
            (λ y k l h q. let t = ap (λ (z : User). z.tenant) (same y l h) in absurd (cc (n, t, q)))
            x j,
        λ e. elim (In-update_where p f x us j) [
          | inl (y, l, h, q) ↦ ap (λ (z : User). z.tenant) q
          | inr (l, h) ↦ absurd (cc ((nat_beq_iff x.id u.id).1 e, h))
        ],
      )

  pub join_tenant-Joined :
      (us : List User) (x : User)
      → is_of_other u.tenant tenant ≡ false
      → Distinct (ids_of_users us)
      → In u us
      → In x (join_tenant u tenant us)
      → Joined us x
  join_tenant-Joined us x h d i j = elim (none_or_tenant u.tenant tenant h) [
    | inl e ↦ updated-Joined us x e d i (subst (In x) (joined_none us e) j)
    | inr e ↦
        let k = subst (In x) (joined_some us e) j in
        ((x, k, refl, λ t q. q), λ f. ap (λ (z : User). z.tenant) (same_user us x d i k f) ∙ e)
  ]

-- An extension that a user gets, and loses the one before.
module _ (u : User) (e : Extension) (es : List Extension) (d : Distinct (extension_ids es))
    (stored : In e es) where
  -- A row after the change: that of the extension, or one that the user does not have.
  abbrev pub GivenRow : Extension → Type 0
  GivenRow f =
      (g : Extension) × In g es
      × (g.id ≡ f.id)
      × (g.tenant ≡ f.tenant)
      × (((f.id ≡ e.id) × (f.tenant ≡ e.tenant) × (f.user ≡ some u.id))
          ⊎ ((f.user ≢ some u.id) × ((f.user ≡ none) ⊎ (f.user ≡ g.user))))

  -- A row after the release.
  abbrev Released : Extension → Type 0
  Released f =
      (g : Extension) × In g es
      × (g.id ≡ f.id)
      × (g.tenant ≡ f.tenant)
      × (f.user ≢ some u.id)
      × ((f.user ≡ none) ⊎ (f.user ≡ g.user))

  release-Released : (f : Extension) → In f (release u.id es) → Released f
  unfolding release
  release-Released f i =
      elim (In-update_where (λ (x : Extension). x.user == some u.id) (λ x. record x { user = none })
        f es i) [
          | inl (y, j, h, q) ↦
              let n : f.user ≡ none = ap (λ (z : Extension). z.user) q in
              (
                y,
                j,
                sym (ap (λ (z : Extension). z.id) q),
                sym (ap (λ (z : Extension). z.tenant) q),
                λ m. absurd (cc (n, m)),
                inl n,
              )
          | inr (j, h) ↦ (
            f,
            j,
            refl,
            refl,
            λ m. let t = (option_beq_iff f.user (some u.id)).1 m in absurd (cc (t, h)),
            inr refl,
          )
        ]

  pub give-GivenRow : (f : Extension) → In f (give e.id u.id (release u.id es)) → GivenRow f
  unfolding give
  give-GivenRow f i =
      elim (In-update_where (λ (x : Extension). x.id == e.id) (λ x. record x { user = some u.id }) f
        (release u.id es) i) [
          | inl (y, j, h, q) ↦
              let (g, k, a, b, c, o) = release-Released y j in
              let same : g ≡ e =
                Distinct-key (λ (x : Extension). x.id) es g e d k stored
                  (a ∙ (nat_beq_iff y.id e.id).0 h) in
              let id_of : y.id ≡ f.id = sym (ap (λ (z : Extension). z.id) q) in
              let tenant_of : y.tenant ≡ f.tenant = sym (ap (λ (z : Extension). z.tenant) q) in
              (
                g,
                k,
                a ∙ id_of,
                b ∙ tenant_of,
                inl (
                  sym id_of ∙ (nat_beq_iff y.id e.id).0 h,
                  sym (b ∙ tenant_of) ∙ ap (λ (z : Extension). z.tenant) same,
                  ap (λ (z : Extension). z.user) q,
                ),
              )
          | inr (j, h) ↦ let (g, k, a, b, c, o) = release-Released f j in (g, k, a, b, inr (c, o))
        ]

  pub ids-give : extension_ids (give e.id u.id (release u.id es)) ≡ extension_ids es
  unfolding give release
  ids-give =
      ids-update_extensions (λ x. record x { user = some u.id }) (λ (x : Extension). x.id == e.id)
        (λ x. refl) (release u.id es)
      ∙ ids-update_extensions (λ x. record x { user = none })
          (λ (x : Extension). x.user == some u.id) (λ x. refl) es
