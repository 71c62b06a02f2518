-- ===== src/Users/Assign/Tables.antt =====
-- apps/users/views.py, the views that assign resources to a user: `UserExtensionView`,
-- `UserExtensionTransportView`, `UserDIDView`, `UserFaxBoxView` and `UserVoicemailBoxView`, for the rows that
-- they find.
use unified_communication_ba.Common.{
  order_by, dedupe, ℕ, Bool, false, not, ◌&&◌, ◌||◌, Option, none, some, List, [], ◌∷◌, ◌++◌, Text,
  codes, ◌==◌, nat_eq, list_eq, option_eq, if◌then◌else◌, first, any, select, update_where,
}
use unified_communication_ba.Models.{Tenant, User, FaxBox, Extension, Did, UserDid}
use unified_communication_ba.Scoping.{extension_of}
use unified_communication_ba.Users.Features.{is_feature_enabled}

-- The tables that the views read and write.
pub record Accounts : Type 0 where
  pub tenants : List Tenant
  pub users : List User
  pub extensions : List Extension
  pub dids : List Did
  pub user_dids : List UserDid

pub data Answer : Type 0 where
  forbidden not_found feature_disabled of_other_tenant done : Answer

unfoldable pub find_user : ℕ → Accounts → Option User
unfolding first
find_user id a = first (λ (u : User). u.id == id) a.users

unfoldable pub find_extension : ℕ → Accounts → Option Extension
unfolding first
find_extension id a = first (λ (e : Extension). e.id == id) a.extensions

unfoldable pub find_did : ℕ → Accounts → Option Did
unfolding first
find_did id a = first (λ (d : Did). d.id == id) a.dids

abbrev pub enabled_in : Option Tenant → Text → Bool
enabled_in none feature = false
enabled_in (some t) feature = is_feature_enabled t feature

-- `(tenant.features or {}).get(feature, False)` of the tenant with the id
unfoldable pub tenant_enables : Accounts → ℕ → Text → Bool
unfolding first is_feature_enabled
tenant_enables a id feature = enabled_in (first (λ (t : Tenant). t.id == id) a.tenants) feature

-- `target_user.tenant or other`
abbrev pub tenant_or : Option ℕ → ℕ → ℕ
tenant_or none other = other
tenant_or (some id) other = id

-- `target_user.tenant_id and tenant_id != target_user.tenant_id`
abbrev pub is_of_other : Option ℕ → ℕ → Bool
is_of_other none tenant = false
is_of_other (some id) tenant = not (tenant == id)

-- A user without a tenant gets that of the resource.
unfoldable pub join_tenant : User → ℕ → List User → List User
unfolding update_where
join_tenant u tenant us = elim u.tenant [
  | none ↦ update_where (λ (x : User). x.id == u.id) (λ x. record x { tenant = some tenant }) us
  | some id ↦ us
]

-- `Extension.objects.filter(user=target_user).update(user=None)`
unfoldable pub release : ℕ → List Extension → List Extension
unfolding update_where
release user = update_where (λ (e : Extension). e.user == some user) (λ e. record e { user = none })

-- `extension.user = target_user` and its `save`
unfoldable pub give : ℕ → ℕ → List Extension → List Extension
unfolding update_where
give extension user =
    update_where (λ (e : Extension). e.id == extension) (λ e. record e { user = some user })

unfoldable pub give_extension : User → Extension → Accounts → Accounts
unfolding join_tenant release give
give_extension u e a = record a {
  users = join_tenant u e.tenant a.users;
  extensions = give e.id u.id (release u.id a.extensions);
}

unfoldable pub assign_extension : Option User → Option Extension → Accounts → Answer × Accounts
unfolding tenant_enables give_extension
assign_extension none e a = (not_found, a)
assign_extension (some u) none a = (not_found, a)
assign_extension (some u) (some e) a =
    if not (tenant_enables a (tenant_or u.tenant e.tenant) (codes "calling"))
    then (feature_disabled, a)
    else if is_of_other u.tenant e.tenant
    then (of_other_tenant, a)
    else (done, give_extension u e a)

unfoldable pub unassign_extension : Option User → Accounts → Answer × Accounts
unfolding release
unassign_extension none a = (not_found, a)
unassign_extension (some u) a = (done, record a { extensions = release u.id a.extensions })

abbrev pub with_transport : Option Extension → Text → Accounts → Answer × Accounts
with_transport none transport a = (not_found, a)
with_transport (some e) transport a = (
  done,
  record a {
    extensions =
        update_where (λ (x : Extension). x.id == e.id)
          (λ x. record x { transport_type = transport }) a.extensions;
  },
)

-- `transport` is one that the serializer accepts.
unfoldable pub change_transport : Option User → Text → Accounts → Answer × Accounts
unfolding extension_of update_where
change_transport none transport a = (not_found, a)
change_transport (some u) transport a = with_transport (extension_of a.extensions u.id) transport a

unfoldable pub has_did_row : ℕ → ℕ → UserDid → Bool
has_did_row user did r = r.user == user && r.did == did

-- `UserDID.objects.get_or_create(user=target_user, did=did)`
unfoldable pub grant_row : ℕ → ℕ → List UserDid → List UserDid
unfolding has_did_row any
grant_row user did rows =
    if any (has_did_row user did) rows
    then rows
    else rows ++ (record { user = user; did = did }) ∷ []

unfoldable pub assign_did : Option User → Option Did → Accounts → Answer × Accounts
unfolding tenant_enables join_tenant grant_row
assign_did none d a = (not_found, a)
assign_did (some u) none a = (not_found, a)
assign_did (some u) (some d) a =
    let tenant = tenant_or u.tenant d.tenant in
    if not
      (tenant_enables a tenant (codes "calling") || tenant_enables a tenant (codes "messaging"))
    then (feature_disabled, a)
    else if is_of_other u.tenant d.tenant
    then (of_other_tenant, a)
    else (
      done,
      record a {
        users = join_tenant u d.tenant a.users;
        user_dids = grant_row u.id d.id a.user_dids;
      },
    )

unfoldable pub revoke_did : Option User → Option Did → Accounts → Answer × Accounts
unfolding has_did_row select
revoke_did none d a = (not_found, a)
revoke_did (some u) none a = (not_found, a)
revoke_did (some u) (some d) a =
    (done, record a { user_dids = select (λ r. not (has_did_row u.id d.id r)) a.user_dids })

-- `[b for b in boxes if b.get("fax_uuid") != fax_uuid]`
unfoldable pub without_box : Text → List FaxBox → List FaxBox
unfolding select
without_box fax_uuid = select (λ (b : FaxBox). not (b.fax_uuid == fax_uuid))

unfoldable pub save_boxes : User → List FaxBox → Accounts → Accounts
unfolding update_where
save_boxes u boxes a = record a {
  users = update_where (λ (x : User). x.id == u.id) (λ x. record x { fax_boxes = boxes }) a.users;
}

-- The tenant's feature, for a user that has one.
abbrev pub tenant_of_enables : Accounts → Option ℕ → Text → Bool
tenant_of_enables a none feature = false
tenant_of_enables a (some id) feature = tenant_enables a id feature

unfoldable pub assign_box : Option User → FaxBox → Accounts → Answer × Accounts
unfolding tenant_enables without_box save_boxes
assign_box none box a = (not_found, a)
assign_box (some u) box a =
    if not (tenant_of_enables a u.tenant (codes "fax"))
    then (feature_disabled, a)
    else (done, save_boxes u (without_box box.fax_uuid u.fax_boxes ++ box ∷ []) a)

unfoldable pub remove_box : Option User → Text → Accounts → Answer × Accounts
unfolding without_box save_boxes
remove_box none fax_uuid a = (not_found, a)
remove_box (some u) fax_uuid a = (done, save_boxes u (without_box fax_uuid u.fax_boxes) a)

unfoldable pub save_voicemail : User → List ℕ → Accounts → Accounts
unfolding update_where
save_voicemail u boxes a = record a {
  users =
      update_where (λ (x : User). x.id == u.id) (λ x. record x { voicemail_boxes = boxes }) a.users;
}

-- `sorted(list(set(boxes) | {box_id}))`
unfoldable pub assign_voicemail : Option User → ℕ → Accounts → Answer × Accounts
unfolding order_by dedupe save_voicemail
assign_voicemail none box_id a = (not_found, a)
assign_voicemail (some u) box_id a =
    (done, save_voicemail u (order_by (λ (b : ℕ). b) (dedupe (u.voicemail_boxes ++ box_id ∷ []))) a)

unfoldable pub remove_voicemail : Option User → ℕ → Accounts → Answer × Accounts
unfolding select save_voicemail
remove_voicemail none box_id a = (not_found, a)
remove_voicemail (some u) box_id a =
    (done, save_voicemail u (select (λ (b : ℕ). not (b == box_id)) u.voicemail_boxes) a)
