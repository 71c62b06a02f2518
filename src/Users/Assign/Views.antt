-- ===== src/Users/Assign/Views.antt =====
-- The views that assign resources (apps/users/views.py): who may call them, and whom they are about.
use unified_communication_ba.Common.{
  ℕ, Bool, Option, Text, nat_eq, list_eq, option_eq, if◌then◌else◌,
}
use unified_communication_ba.Models.{User, FaxBox}
use unified_communication_ba.Access.{is_super_admin, is_admin_or_super_admin, has_permission}
use unified_communication_ba.Users.Assign.Tables.{
  Accounts, Answer, find_user, find_extension, find_did, assign_extension, unassign_extension,
  change_transport, assign_did, revoke_did, assign_box, remove_box, assign_voicemail,
  remove_voicemail, forbidden,
}

-- A request about the user with an id.
pub data AssignRequest : Type 0 where
  extension_post : ℕ → AssignRequest
  extension_delete : AssignRequest
  transport_patch : Text → AssignRequest
  did_post : ℕ → AssignRequest
  did_delete : ℕ → AssignRequest
  box_post : FaxBox → AssignRequest
  box_delete : Text → AssignRequest
  voicemail_post : ℕ → AssignRequest
  voicemail_delete : ℕ → AssignRequest

-- The permission class of the view.
abbrev pub permission_for : AssignRequest → User → Bool
permission_for (extension_post e) = is_admin_or_super_admin
permission_for extension_delete = is_admin_or_super_admin
permission_for (transport_patch s) = is_super_admin
permission_for (did_post d) = is_admin_or_super_admin
permission_for (did_delete d) = is_admin_or_super_admin
permission_for (box_post b) = is_admin_or_super_admin
permission_for (box_delete u) = is_admin_or_super_admin
permission_for (voicemail_post n) = is_admin_or_super_admin
permission_for (voicemail_delete n) = is_admin_or_super_admin

unfoldable pub serve_assignment : AssignRequest → ℕ → Accounts → Answer × Accounts
unfolding find_user find_extension find_did assign_extension unassign_extension change_transport
    assign_did revoke_did assign_box remove_box assign_voicemail remove_voicemail
serve_assignment (extension_post e) id a = assign_extension (find_user id a) (find_extension e a) a
serve_assignment extension_delete id a = unassign_extension (find_user id a) a
serve_assignment (transport_patch s) id a = change_transport (find_user id a) s a
serve_assignment (did_post d) id a = assign_did (find_user id a) (find_did d a) a
serve_assignment (did_delete d) id a = revoke_did (find_user id a) (find_did d a) a
serve_assignment (box_post b) id a = assign_box (find_user id a) b a
serve_assignment (box_delete u) id a = remove_box (find_user id a) u a
serve_assignment (voicemail_post n) id a = assign_voicemail (find_user id a) n a
serve_assignment (voicemail_delete n) id a = remove_voicemail (find_user id a) n a

-- A request of a caller, if anyone is logged in.
unfoldable pub handle_assignment : Option User → ℕ → AssignRequest → Accounts → Answer × Accounts
unfolding has_permission is_super_admin is_admin_or_super_admin serve_assignment
handle_assignment caller id r a =
    if has_permission (permission_for r) caller then serve_assignment r id a else (forbidden, a)
