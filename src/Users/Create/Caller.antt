-- ===== src/Users/Create/Caller.antt =====
-- Creating a user (apps/users/serializers.py): what the caller decides, and the tables after it.

use unified_communication_ba.Common.{
  ◌≡◌, inl, inr, refl, sym, ap, ◌∙◌, Bool, not, ◌&&◌, Option, none, some, List, codes, nat_eq,
  list_eq, Bool-cases,
}
use unified_communication_ba.Models.{Tenant, User}
use unified_communication_ba.Users.Create.Defs.{
  Outcome, ok, invalid, raises, next_of, ResolvedRow, Form, People, Helpers,
}
use unified_communication_ba.Users.Create.Save.{
  validate_form, tenant_for, enabled_for, given_boxes, new_user, add_user, create_extension_of,
  create_dids_of, create_in, create_for, create_account,
}

-- Where a chain gives a value, each step gave one.
pub next_of-ok :
    {A B : Type 0} (o : Outcome A) (f : A → Outcome B) (b : B)
    → next_of o f ≡ ok b
    → (a : A) × (o ≡ ok a) × (f a ≡ ok b)
next_of-ok (ok a) f b h = (a, refl, h)
next_of-ok (invalid field) f b h = absurd cc
next_of-ok raises f b h = absurd cc

-- What an `ok` holds.
abbrev pub value_or : {A : Type 0} → A → Outcome A → A
value_or d (ok a) = a
value_or d (invalid field) = d
value_or d raises = d

pub ok-injective : {A : Type 0} (a b : A) → ok a ≡ ok b → a ≡ b
ok-injective a b h = ap (value_or a) h

module _ (w : Helpers) (form : Form) where
  -- A user that was created, for its tenant.
  pub record Created (p : People) (t : Option Tenant) (u : User) (p' : People) : Type 0 where
    pub tenant : Tenant
    pub rows : List ResolvedRow
    pub after_extension : People
    pub of_tenant : t ≡ some tenant
    pub row : u ≡ new_user w form tenant p.next_id
    pub extension :
        create_extension_of w form.extension_ref tenant
          (new_user w form tenant p.next_id)
          (add_user (new_user w form tenant p.next_id) p)
        ≡ ok after_extension
    pub dids :
        create_dids_of w tenant (new_user w form tenant p.next_id) rows after_extension ≡ ok p'

  create_in-Created :
      (rows : List ResolvedRow) (p : People) (t : Option Tenant) (u : User) (p' : People)
      → create_in w form rows p t ≡ ok (u, p')
      → Created p t u p'
  unfolding create_in
  create_in-Created rows p none u p' h = absurd cc
  create_in-Created rows p (some t) u p' h =
      let v = new_user w form t p.next_id in
      let (q, e, f) = next_of-ok _ (λ q. ok (v, q)) (u, p') h in
      let g = ok-injective (v, q) (u, p') f in
      let (r, x, y) = next_of-ok _ (λ r. create_dids_of w t v rows r) q e in
      record {
        tenant = t;
        rows = rows;
        after_extension = r;
        of_tenant = refl;
        row = sym (ap (λ (z : User × People). z.0) g);
        extension = x;
        dids = y ∙ ap (λ (z : User × People). ok (z.1)) g;
      }

  create_for-Created :
      (rows : List ResolvedRow) (p : People) (t : Option Tenant) (u : User) (p' : People)
      → create_for w form rows p t ≡ ok (u, p')
      → Created p t u p'
  unfolding create_for
  create_for-Created rows p t u p' h =
      elim (Bool-cases (given_boxes form.fax_boxes && not (enabled_for t (codes "fax")))) [
        | inl e ↦ let q = rw e at h in absurd cc
        | inr e ↦ create_in-Created rows p t u p' (rw e at h)
      ]

  pub create_account-Created :
      (invite : Bool) (caller : User) (p : People) (u : User) (p' : People)
      → create_account w invite caller form p ≡ ok (u, p')
      → (t : Option Tenant) × (tenant_for w caller form p.accounts ≡ ok t) × Created p t u p'
  unfolding create_account
  create_account-Created invite caller p u p' h =
      let finish = λ (rows : List ResolvedRow) (t : Option Tenant). create_for w form rows p t in
      let (rows, e, f) =
        next_of-ok (validate_form w invite form p)
          (λ rows. next_of (tenant_for w caller form p.accounts) (finish rows)) (u, p') h in
      let (t, x, y) = next_of-ok (tenant_for w caller form p.accounts) (finish rows) (u, p') f in
      (t, x, create_for-Created rows p t u p' y)
