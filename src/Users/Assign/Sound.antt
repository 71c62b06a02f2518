-- ===== src/Users/Assign/Sound.antt =====
-- The views that assign resources (apps/users/views.py): extensions and DIDs of a user and their tenants.
use mathlib.Core.Path.{subst}
use unified_communication_ba.Common.{
  In-update_where, ℕ, ◌≡◌, ◌⊎◌, inl, inr, refl, sym, ap, ◌∙◌, Bool, true, Option, none, some, List,
  [], ◌∷◌, map, nat_eq, list_eq, option_eq, update_where, In, Distinct, arith,
}
use unified_communication_ba.Models.{User, Extension, Did, UserDid}
use unified_communication_ba.Users.Assign.Tables.{Accounts}

abbrev pub ids_of_users : List User → List ℕ
ids_of_users = map (λ (u : User). u.id)

abbrev pub extension_ids : List Extension → List ℕ
extension_ids = map (λ (e : Extension). e.id)

abbrev pub did_ids : List Did → List ℕ
did_ids = map (λ (d : Did). d.id)

-- Ids name one row, a user has at most one extension, and extensions and DIDs of a user are of its tenant.
pub record IsAssigned (a : Accounts) : Type 0 where
  pub users_distinct : Distinct (ids_of_users a.users)
  pub extensions_distinct : Distinct (extension_ids a.extensions)
  pub dids_distinct : Distinct (did_ids a.dids)
  pub one_extension :
      (e f : Extension) (k : ℕ)
      → In e a.extensions
      → In f a.extensions
      → e.user ≡ some k
      → f.user ≡ some k
      → e.id ≡ f.id
  pub extension_tenant :
      (e : Extension) (u : User)
      → In e a.extensions
      → In u a.users
      → e.user ≡ some u.id
      → u.tenant ≡ some e.tenant
  pub did_tenant :
      (r : UserDid) (u : User) (d : Did)
      → In r a.user_dids
      → In u a.users
      → In d a.dids
      → r.user ≡ u.id
      → r.did ≡ d.id
      → u.tenant ≡ some d.tenant

-- A user row that has kept its tenant, if it had one.
abbrev pub KeptUser : List User → User → Type 0
KeptUser us x =
    (y : User) × In y us × (y.id ≡ x.id) × ((k : ℕ) → y.tenant ≡ some k → x.tenant ≡ some k)

-- An extension row that has kept its user or lost it.
abbrev pub KeptExtension : List Extension → Extension → Type 0
KeptExtension es f =
    (g : Extension) × In g es
    × (g.id ≡ f.id)
    × (g.tenant ≡ f.tenant)
    × ((f.user ≡ none) ⊎ (f.user ≡ g.user))

module _ (f : User → User) (p : User → Bool) (id_kept : (x : User) → (f x).id ≡ x.id) where
  pub ids-update_users : (us : List User) → ids_of_users (update_where p f us) ≡ ids_of_users us
  unfolding update_where
  ids-update_users [] = refl
  ids-update_users (x ∷ us) = ground (arith, ids-update_users us, id_kept x)

  pub update-KeptUser :
      (us : List User)
      → ((x : User) (k : ℕ) → In x us → p x ≡ true → x.tenant ≡ some k → (f x).tenant ≡ some k)
      → (x : User) → In x (update_where p f us)
      → KeptUser us x
  update-KeptUser us t x i = elim (In-update_where p f x us i) [
    | inl (y, j, h, e) ↦ (
      y,
      j,
      sym (id_kept y) ∙ ap (λ (z : User). z.id) (sym e),
      λ k q. ap (λ (z : User). z.tenant) e ∙ t y k j h q,
    )
    | inr (j, h) ↦ (x, j, refl, λ k q. q)
  ]

module _ (f : Extension → Extension) (p : Extension → Bool)
    (id_kept : (x : Extension) → (f x).id ≡ x.id) where
  pub ids-update_extensions :
      (es : List Extension) → extension_ids (update_where p f es) ≡ extension_ids es
  unfolding update_where
  ids-update_extensions [] = refl
  ids-update_extensions (x ∷ es) = ground (arith, ids-update_extensions es, id_kept x)

  pub update-KeptExtension :
      ((x : Extension) → (f x).tenant ≡ x.tenant)
      → ((x : Extension) → ((f x).user ≡ none) ⊎ ((f x).user ≡ x.user))
      → (es : List Extension) (x : Extension) → In x (update_where p f es)
      → KeptExtension es x
  update-KeptExtension t u es x i = elim (In-update_where p f x es i) [
    | inl (y, j, h, e) ↦ (
      y,
      j,
      sym (id_kept y) ∙ ap (λ (z : Extension). z.id) (sym e),
      sym (t y) ∙ ap (λ (z : Extension). z.tenant) (sym e),
      subst (λ (z : Extension). (z.user ≡ none) ⊎ (z.user ≡ y.user)) (sym e) (u y),
    )
    | inr (j, h) ↦ (x, j, refl, refl, inr refl)
  ]

pub owner_kept : {o o' : Option ℕ} (k : ℕ) → (o ≡ none) ⊎ (o ≡ o') → o ≡ some k → o' ≡ some k
owner_kept k (inl e) h = absurd (cc (e, h))
owner_kept k (inr e) h = sym e ∙ h

-- Tables whose rows are kept, with fewer grants of DIDs, are still sound.
pub Kept-IsAssigned :
    (a b : Accounts)
    → IsAssigned a
    → ids_of_users b.users ≡ ids_of_users a.users
    → extension_ids b.extensions ≡ extension_ids a.extensions
    → b.dids ≡ a.dids
    → ((x : User) → In x b.users → KeptUser a.users x)
    → ((f : Extension) → In f b.extensions → KeptExtension a.extensions f)
    → ((r : UserDid) → In r b.user_dids → In r a.user_dids)
    → IsAssigned b
Kept-IsAssigned a b sound ids eids same users extensions rows = record {
  users_distinct = subst Distinct (sym ids) sound.users_distinct;
  extensions_distinct = subst Distinct (sym eids) sound.extensions_distinct;
  dids_distinct = subst (λ (ds : List Did). Distinct (did_ids ds)) (sym same) sound.dids_distinct;
  one_extension = λ e f k i j p q.
      let (e', i', c, t, o) = extensions e i in
      let (f', j', c', t', o') = extensions f j in
      sym c ∙ sound.one_extension e' f' k i' j' (owner_kept k o p) (owner_kept k o' q) ∙ c';
  extension_tenant = λ e u i j p.
      let (e', i', c, t, o) = extensions e i in
      let (y, j', d, keep) = users u j in
      keep e.tenant
        (sound.extension_tenant e' y i' j' (owner_kept u.id o p ∙ ap some (sym d)) ∙ ap some t);
  did_tenant = λ r u d i j l p q.
      let (y, j', c, keep) = users u j in
      keep d.tenant (sound.did_tenant r y d (rows r i) j' (subst (In d) same l) (p ∙ sym c) q);
}
