-- ===== src/Users/Create/Kept.antt =====
-- Creating a user (apps/users/serializers.py): the resources of users and their tenants.
use mathlib.Core.Path.{subst}
use unified_communication_ba.Common.{
  ℕ, ◌<◌, ◌≡◌, inl, inr, refl, sym, ap, Bool, false, Option, some, List, [], ◌∷◌, ◌++◌, nat_eq,
  nat_beq_iff, list_eq, In, In-append, Distinct, contains, arith,
}
use unified_communication_ba.Models.{Tenant, User, Extension, UserDid}
use unified_communication_ba.Users.Assign.Sound.{IsAssigned, ids_of_users}
use unified_communication_ba.Users.Create.Defs.{ok, Form, People, Helpers}
use unified_communication_ba.Users.Create.Save.{new_user, add_user, create_account}
use unified_communication_ba.Users.Create.Caller.{Created, create_account-Created}
use unified_communication_ba.Users.Create.Ready.{
  IsReady, create_extension_of-IsReady, create_dids_of-IsReady,
}

-- No row refers to a user that is still to come.
pub record IsFresh (p : People) : Type 0 where
  pub users : (u : User) → In u p.accounts.users → u.id < p.next_id
  pub extensions :
      (e : Extension) (k : ℕ) → In e p.accounts.extensions → e.user ≡ some k → k < p.next_id
  pub user_dids : (r : UserDid) → In r p.accounts.user_dids → r.user < p.next_id

ids-append-Distinct :
    (us : List User) (u : User)
    → Distinct (ids_of_users us)
    → ((x : User) → In x us → x.id < u.id)
    → Distinct (ids_of_users (us ++ u ∷ []))
unfolding contains
ids-append-Distinct [] u d h = (refl, tt)
ids-append-Distinct (x ∷ us) u d h =
    (fresh_head us d.0, ids-append-Distinct us u d.1 (λ y i. h y (inr i)))
  where
    fresh_head :
        (ys : List User)
        → contains (ids_of_users ys) x.id ≡ false
        → contains (ids_of_users (ys ++ u ∷ [])) x.id ≡ false
    fresh_head [] e = ground (arith, h x (inl refl), nat_beq_iff x.id u.id)
    fresh_head (y ∷ ys) e = ground (arith, fresh_head ys)

-- A new user has nothing yet.
add_user-IsReady :
    (t : Tenant) (u : User) (p : People)
    → IsFresh p
    → IsAssigned p.accounts
    → u.id ≡ p.next_id
    → u.tenant ≡ some t.id
    → IsReady (p.accounts.users ++ u ∷ []) t u (add_user u p)
unfolding add_user
add_user-IsReady t u p fresh sound e o = record {
  assigned = record {
    users_distinct =
        ids-append-Distinct p.accounts.users u sound.users_distinct
          (λ x i. ground (arith, fresh.users x i));
    extensions_distinct = sound.extensions_distinct;
    dids_distinct = sound.dids_distinct;
    one_extension = sound.one_extension;
    extension_tenant = λ f x i j q. elim ((In-append x p.accounts.users (u ∷ [])).0 j) [
      | inl k ↦ sound.extension_tenant f x i k q
      | inr (inl s) ↦
          let n = fresh.extensions f x.id i q in
          absurd (omega (arith, n, ap (λ (z : User). z.id) s, e))
      | inr (inr s) ↦ absurd s
    ];
    did_tenant = λ r x d i j l q s. elim ((In-append x p.accounts.users (u ∷ [])).0 j) [
      | inl k ↦ sound.did_tenant r x d i k l q s
      | inr (inl m) ↦
          let n = fresh.user_dids r i in absurd (omega (arith, n, ap (λ (z : User). z.id) m, e, q))
      | inr (inr m) ↦ absurd m
    ];
  };
  stored = (In-append u p.accounts.users (u ∷ [])).1 (inr (inl refl));
  users = refl;
  of_tenant = o;
}

module _ (w : Helpers) (form : Form) where
  Created-IsReady :
      (p : People) (o : Option Tenant) (u : User) (p' : People) (c : Created w form p o u p')
      → IsFresh p
      → IsAssigned p.accounts
      → IsReady (p.accounts.users ++ u ∷ []) c.tenant u p'
  unfolding new_user
  Created-IsReady p o u p' c fresh sound =
      let v = new_user w form c.tenant p.next_id in
      let us = p.accounts.users ++ v ∷ [] in
      let ready = add_user-IsReady c.tenant v p fresh sound refl refl in
      subst (λ (x : User). IsReady (p.accounts.users ++ x ∷ []) c.tenant x p') (sym c.row)
        (create_dids_of-IsReady w us c.tenant v c.rows c.after_extension p'
          (create_extension_of-IsReady w us c.tenant v form.extension_ref (add_user v p)
            c.after_extension ready c.extension)
          c.dids)

  pub create_account-users :
      (invite : Bool) (caller : User) (p : People) (u : User) (p' : People)
      → IsFresh p
      → IsAssigned p.accounts
      → create_account w invite caller form p ≡ ok (u, p')
      → p'.accounts.users ≡ p.accounts.users ++ u ∷ []
  create_account-users invite caller p u p' fresh sound h =
      let (o, x, c) = create_account-Created w form invite caller p u p' h in
      (Created-IsReady p o u p' c fresh sound).users

-- Where no row refers to a user that is still to come, creating a user keeps the resources of users sound:
-- ids name one row, no user has two extensions, and every extension and DID of a user, the new one
-- included, is of the user's tenant. The new user is in the table.
pub create_account-IsAssigned :
    (w : Helpers) (invite : Bool) (caller : User) (form : Form) (p : People) (u : User)
    (p' : People)
    → IsFresh p
    → IsAssigned p.accounts
    → create_account w invite caller form p ≡ ok (u, p')
    → IsAssigned p'.accounts × In u p'.accounts.users
create_account-IsAssigned w invite caller form p u p' fresh sound h =
    let (o, x, c) = create_account-Created w form invite caller p u p' h in
    let r = Created-IsReady w form p o u p' c fresh sound in (r.assigned, r.stored)
