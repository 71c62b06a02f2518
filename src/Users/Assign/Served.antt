-- ===== src/Users/Assign/Served.antt =====
-- Requests to the views that assign resources (apps/users/views.py), one by one and in sequence.

use unified_communication_ba.Common.{
  In-update_where, ℕ, ◌≡◌, ◌≢◌, inl, inr, refl, ap, true, not, ◌||◌, Option, none, some, List, [],
  ◌∷◌, ◌++◌, Text, codes, ◌==◌, nat_eq, list_eq, option_eq, option_beq_iff, first-In, In,
  Bool-cases,
}
use unified_communication_ba.Access.{has_permission, is_admin_or_super_admin}
use unified_communication_ba.Models.{User, FaxBox, Extension, Did}
use unified_communication_ba.Scoping.{extension_of}
use unified_communication_ba.Users.Assign.Tables.{
  Accounts, done, tenant_enables, tenant_or, is_of_other, find_user, find_extension, find_did,
  release, assign_extension, unassign_extension, change_transport, has_did_row, assign_did,
  revoke_did, without_box, tenant_of_enables, assign_box, remove_box, assign_voicemail,
  remove_voicemail,
}
use unified_communication_ba.Users.Assign.Views.{
  AssignRequest, extension_post, extension_delete, transport_patch, did_post, did_delete, box_post,
  box_delete, voicemail_post, voicemail_delete, permission_for, serve_assignment, handle_assignment,
}
use unified_communication_ba.Users.Assign.Sound.{IsAssigned}
use unified_communication_ba.Users.Assign.Rows.{
  give_extension-IsAssigned, granted-IsAssigned, released-IsAssigned, with_transport-IsAssigned,
  save_boxes-IsAssigned, save_voicemail-IsAssigned, revoked-IsAssigned,
}

module _ (a : Accounts) (sound : IsAssigned a) where
  assign_extension-IsAssigned :
      (o : Option User) (p : Option Extension)
      → ((u : User) → o ≡ some u → In u a.users)
      → ((e : Extension) → p ≡ some e → In e a.extensions)
      → IsAssigned (assign_extension o p a).1
  unfolding assign_extension
  assign_extension-IsAssigned none p i j = sound
  assign_extension-IsAssigned (some u) none i j = sound
  assign_extension-IsAssigned (some u) (some e) i j =
      elim (Bool-cases (tenant_enables a (tenant_or u.tenant e.tenant) (codes "calling"))) [
        | inr t ↦ rw t sound
        | inl t ↦ elim (Bool-cases (is_of_other u.tenant e.tenant)) [
          | inl h ↦ rw (t, h) sound
          | inr h ↦ rw (t, h) (give_extension-IsAssigned a sound u e (i u refl) (j e refl) h)
        ]
      ]

  assign_did-IsAssigned :
      (o : Option User) (p : Option Did)
      → ((u : User) → o ≡ some u → In u a.users)
      → ((d : Did) → p ≡ some d → In d a.dids)
      → IsAssigned (assign_did o p a).1
  unfolding assign_did
  assign_did-IsAssigned none p i j = sound
  assign_did-IsAssigned (some u) none i j = sound
  assign_did-IsAssigned (some u) (some d) i j =
      let tenant = tenant_or u.tenant d.tenant in
      elim (Bool-cases (
        tenant_enables a tenant (codes "calling") || tenant_enables a tenant (codes "messaging"))) [
          | inr t ↦ rw t sound
          | inl t ↦ elim (Bool-cases (is_of_other u.tenant d.tenant)) [
            | inl h ↦ rw (t, h) sound
            | inr h ↦ rw (t, h) (granted-IsAssigned a sound u d (i u refl) (j d refl) h)
          ]
        ]

  unassign_extension-IsAssigned : (o : Option User) → IsAssigned (unassign_extension o a).1
  unfolding unassign_extension
  unassign_extension-IsAssigned none = sound
  unassign_extension-IsAssigned (some u) = released-IsAssigned a sound u.id

  change_transport-IsAssigned :
      (o : Option User) (transport : Text) → IsAssigned (change_transport o transport a).1
  unfolding change_transport
  change_transport-IsAssigned none transport = sound
  change_transport-IsAssigned (some u) transport =
      with_transport-IsAssigned a sound (extension_of a.extensions u.id) transport

  revoke_did-IsAssigned : (o : Option User) (p : Option Did) → IsAssigned (revoke_did o p a).1
  unfolding revoke_did
  revoke_did-IsAssigned none p = sound
  revoke_did-IsAssigned (some u) none = sound
  revoke_did-IsAssigned (some u) (some d) =
      revoked-IsAssigned a sound (λ r. not (has_did_row u.id d.id r))

  assign_box-IsAssigned : (o : Option User) (box : FaxBox) → IsAssigned (assign_box o box a).1
  unfolding assign_box
  assign_box-IsAssigned none box = sound
  assign_box-IsAssigned (some u) box =
      elim (Bool-cases (tenant_of_enables a u.tenant (codes "fax"))) [
        | inr t ↦ rw t sound
        | inl t ↦
            rw t
              (save_boxes-IsAssigned a sound u (without_box box.fax_uuid u.fax_boxes ++ box ∷ []))
      ]

  remove_box-IsAssigned :
      (o : Option User) (fax_uuid : Text) → IsAssigned (remove_box o fax_uuid a).1
  unfolding remove_box
  remove_box-IsAssigned none fax_uuid = sound
  remove_box-IsAssigned (some u) fax_uuid =
      save_boxes-IsAssigned a sound u (without_box fax_uuid u.fax_boxes)

  assign_voicemail-IsAssigned :
      (o : Option User) (box_id : ℕ) → IsAssigned (assign_voicemail o box_id a).1
  unfolding assign_voicemail
  assign_voicemail-IsAssigned none box_id = sound
  assign_voicemail-IsAssigned (some u) box_id = save_voicemail-IsAssigned a sound u _

  remove_voicemail-IsAssigned :
      (o : Option User) (box_id : ℕ) → IsAssigned (remove_voicemail o box_id a).1
  unfolding remove_voicemail
  remove_voicemail-IsAssigned none box_id = sound
  remove_voicemail-IsAssigned (some u) box_id = save_voicemail-IsAssigned a sound u _

  find_user-In : (id : ℕ) (u : User) → find_user id a ≡ some u → In u a.users
  unfolding find_user
  find_user-In id u h = (first-In (λ (x : User). x.id == id) u a.users h).0

  find_extension-In : (id : ℕ) (e : Extension) → find_extension id a ≡ some e → In e a.extensions
  unfolding find_extension
  find_extension-In id e h = (first-In (λ (x : Extension). x.id == id) e a.extensions h).0

  find_did-In : (id : ℕ) (d : Did) → find_did id a ≡ some d → In d a.dids
  unfolding find_did
  find_did-In id d h = (first-In (λ (x : Did). x.id == id) d a.dids h).0

  serve_assignment-IsAssigned :
      (r : AssignRequest) (id : ℕ) → IsAssigned (serve_assignment r id a).1
  unfolding serve_assignment
  serve_assignment-IsAssigned (extension_post e) id =
      assign_extension-IsAssigned (find_user id a) (find_extension e a) (find_user-In id)
        (find_extension-In e)
  serve_assignment-IsAssigned extension_delete id = unassign_extension-IsAssigned (find_user id a)
  serve_assignment-IsAssigned (transport_patch s) id =
      change_transport-IsAssigned (find_user id a) s
  serve_assignment-IsAssigned (did_post d) id =
      assign_did-IsAssigned (find_user id a) (find_did d a) (find_user-In id) (find_did-In d)
  serve_assignment-IsAssigned (did_delete d) id =
      revoke_did-IsAssigned (find_user id a) (find_did d a)
  serve_assignment-IsAssigned (box_post b) id = assign_box-IsAssigned (find_user id a) b
  serve_assignment-IsAssigned (box_delete f) id = remove_box-IsAssigned (find_user id a) f
  serve_assignment-IsAssigned (voicemail_post n) id = assign_voicemail-IsAssigned (find_user id a) n
  serve_assignment-IsAssigned (voicemail_delete n) id =
      remove_voicemail-IsAssigned (find_user id a) n

  handle_assignment-IsAssigned :
      (caller : Option User) (id : ℕ) (r : AssignRequest)
      → IsAssigned (handle_assignment caller id r a).1
  unfolding handle_assignment
  handle_assignment-IsAssigned caller id r =
      elim (Bool-cases (has_permission (permission_for r) caller)) [
        | inl e ↦ rw e (serve_assignment-IsAssigned r id)
        | inr e ↦ rw e sound
      ]

-- Requests one after the other: each with its caller and the id of the user that it is about.
unfoldable pub run_assignments : List (Option User × ℕ × AssignRequest) → Accounts → Accounts
unfolding handle_assignment
run_assignments [] a = a
run_assignments ((caller, id, r) ∷ rs) a = run_assignments rs (handle_assignment caller id r a).1

-- Whatever requests to assign resources come in, from any callers and in any order: where ids name one row,
-- no user has two extensions, and every extension and DID of a user is of the user's tenant, it stays so.
pub run_assignments-IsAssigned :
    (rs : List (Option User × ℕ × AssignRequest)) (a : Accounts)
    → IsAssigned a
    → IsAssigned (run_assignments rs a)
unfolding run_assignments
run_assignments-IsAssigned [] a sound = sound
run_assignments-IsAssigned ((caller, id, r) ∷ rs) a sound =
    run_assignments-IsAssigned rs (handle_assignment caller id r a).1
      (handle_assignment-IsAssigned a sound caller id r)

release-none :
    (user : ℕ) (es : List Extension) (e : Extension) → In e (release user es) → e.user ≢ some user
unfolding release
release-none user es e i h =
    elim (In-update_where (λ (x : Extension). x.user == some user) (λ x. record x { user = none }) e
      es i) [
        | inl (y, j, p, q) ↦ let n : e.user ≡ none = ap (λ (z : Extension). z.user) q in cc (n, h)
        | inr (j, p) ↦ let t = (option_beq_iff e.user (some user)).1 h in cc (t, p)
      ]

-- An admin, of whatever tenant, can take the extension from any user of any tenant: the request is done,
-- and no extension is left to that user.
pub handle_assignment-any_tenant :
    (caller target : User) (id : ℕ) (a : Accounts)
    → is_admin_or_super_admin caller ≡ true
    → find_user id a ≡ some target
    → ((handle_assignment (some caller) id extension_delete a).0 ≡ done)
      × ((e : Extension)
          → In e (handle_assignment (some caller) id extension_delete a).1.extensions
          → e.user ≢ some target.id)
unfolding handle_assignment has_permission serve_assignment unassign_extension
handle_assignment-any_tenant caller target id a p f =
    rw (p, f) (refl, λ e i. release-none target.id a.extensions e i)
