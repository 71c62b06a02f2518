-- ===== src/Users/Create/Save.antt =====
-- Creating a user: `UserUpsertSerializer.validate` and `create`, with `create_user` of apps/users/managers.py.
use unified_communication_ba.Common.{
  ℕ, ◌+◌, Bool, true, false, not, ◌&&◌, Option, none, some, List, [], ◌∷◌, ◌++◌, Text, codes,
  nonempty, strip, lower, ◌==◌, nat_eq, list_eq, option_eq, if◌then◌else◌, first, any, select,
  or_default,
}
use unified_communication_ba.Models.{
  Tenant, User, Role, user, superadmin, role_beq, FaxBox, Extension, Did, Assignment,
}
use unified_communication_ba.Access.{is_super_admin}
use unified_communication_ba.Users.Features.{is_feature_enabled}
use unified_communication_ba.Users.Assign.{Accounts, give_extension, grant_row}
use unified_communication_ba.Users.Create.Defs.{
  Outcome, ok, invalid, raises, next_of, ResolvedRow, Form, People, Helpers,
}
use unified_communication_ba.Users.Create.Refs.{
  resolve_tenant, extension_by_uuid, resolve_extension, resolve_did, is_blank, resolve_rows,
}

-- `email.strip().lower()`
unfoldable pub normalize_email : Text → Text
unfolding strip lower
normalize_email email = lower (strip email)

-- `validate`: an invitation asks for no password.
unfoldable pub validate_form : Helpers → Bool → Form → People → Outcome (List ResolvedRow)
unfolding normalize_email any resolve_rows
validate_form w invite form p =
    if not (nonempty form.email)
    then invalid (codes "email")
    else if not invite && not (nonempty form.password)
    then invalid (codes "password")
    else if any (λ (u : User). u.email == normalize_email form.email) p.accounts.users
    then invalid (codes "email")
    else resolve_rows w form.did_rows p

abbrev pub tenant_with : Option ℕ → List Tenant → Option Tenant
tenant_with none ts = none
tenant_with (some id) ts = first (λ (t : Tenant). t.id == id) ts

abbrev pub tenant_of_extension : Option Extension → List Tenant → Option Tenant
tenant_of_extension none ts = none
tenant_of_extension (some e) ts = tenant_with (some e.tenant) ts

abbrev pub named_or_invalid : Option Tenant → Outcome (Option Tenant)
named_or_invalid none = invalid (codes "tenant_id")
named_or_invalid (some t) = ok (some t)

abbrev pub role_or_user : Option Role → Role
role_or_user none = user
role_or_user (some r) = r

-- The tenant of the extension, which only a new superadmin can do without.
abbrev pub inferred : Form → Option Tenant → Outcome (Option Tenant)
inferred form none =
    if role_beq (role_or_user form.role) superadmin then ok none else invalid (codes "tenant_id")
inferred form (some t) = ok (some t)

-- The tenant that a superadmin names, or that of the extension.
unfoldable pub tenant_for_superadmin : Helpers → Form → Accounts → Outcome (Option Tenant)
unfolding resolve_tenant strip extension_by_uuid first role_beq
tenant_for_superadmin w form a =
    if nonempty form.tenant_ref
    then named_or_invalid (resolve_tenant w form.tenant_ref a.tenants)
    else if nonempty form.extension_ref
    then inferred form (
        tenant_of_extension
          (extension_by_uuid (w.parse_uuid (strip form.extension_ref)) (strip form.extension_ref)
            a.extensions)
          a.tenants)
    else inferred form none

abbrev pub own_or_named : Helpers → Form → Accounts → Option Tenant → Option Tenant
own_or_named w form a none = resolve_tenant w form.tenant_ref a.tenants
own_or_named w form a (some t) = some t

-- The tenant of the new user.
unfoldable pub tenant_for : Helpers → User → Form → Accounts → Outcome (Option Tenant)
unfolding is_super_admin tenant_for_superadmin resolve_tenant first
tenant_for w caller form a =
    if is_super_admin caller
    then tenant_for_superadmin w form a
    else ok (own_or_named w form a (tenant_with caller.tenant a.tenants))

abbrev pub enabled_for : Option Tenant → Text → Bool
enabled_for none feature = false
enabled_for (some t) feature = is_feature_enabled t feature

abbrev pub given_boxes : List FaxBox → Bool
given_boxes [] = false
given_boxes (b ∷ bs) = true

-- `raw_password`, or the temporary one
abbrev pub password_of : Helpers → Form → Text
password_of w form = if nonempty form.password then form.password else w.temp_password

abbrev pub must_change : Form → Bool
must_change form =
    if nonempty form.password then or_default form.must_change_password true else true

-- The row that `create_user` saves.
unfoldable pub new_user : Helpers → Form → Tenant → ℕ → User
unfolding normalize_email
new_user w form t id = record {
  id = id;
  tenant = some t.id;
  email = normalize_email form.email;
  password = w.make_password (password_of w form);
  role = role_or_user form.role;
  is_superuser = false;
  is_staff = false;
  is_team_lead = or_default form.is_team_lead false;
  is_active = or_default form.is_active true;
  is_first_login = true;
  must_change_password = must_change form;
  first_name = form.first_name;
  last_name = form.last_name;
  sip_domain = form.sip_domain;
  fax_boxes = form.fax_boxes;
  features = [];
  voicemail_boxes = form.voicemail_boxes;
}

unfoldable pub add_user : User → People → People
add_user u p = record p {
  accounts = record p.accounts { users = p.accounts.users ++ u ∷ [] };
  next_id = p.next_id + 1;
}

abbrev pub with_extension : User → People → Option Extension → Outcome People
with_extension u p none = invalid (codes "extension_id")
with_extension u p (some e) = ok (record p { accounts = give_extension u e p.accounts })

-- The extension, if one is asked for.
unfoldable pub create_extension_of : Helpers → Text → Tenant → User → People → Outcome People
unfolding is_blank is_feature_enabled resolve_extension give_extension
create_extension_of w ref t u p =
    if is_blank ref
    then ok p
    else if not (is_feature_enabled t (codes "calling"))
    then invalid (codes "extension_id")
    else with_extension u p (resolve_extension w ref t.id p.accounts.extensions)

unfoldable pub is_row_of : ℕ → ℕ → Assignment → Bool
is_row_of owner did a = a.user == owner && a.did == did

-- The division of the user on the DID becomes this one alone.
unfoldable pub put_division : ℕ → ℕ → Option ℕ → Option ℕ → List Assignment → List Assignment
unfolding is_row_of select any
put_division owner did none department rows = rows
put_division owner did (some division) department rows =
    let same = λ (a : Assignment). a.division == division && a.department == department in
    let kept = select (λ (a : Assignment). not (is_row_of owner did a && not (same a))) rows in
    if any (λ (a : Assignment). is_row_of owner did a && same a) kept
    then kept
    else kept
      ++ (record { user = owner; did = did; division = division; department = department }) ∷ []

abbrev pub with_did : User → ResolvedRow → People → Option Did → Outcome People
with_did u r p none = invalid (codes "did_assignments")
with_did u r p (some d) = ok (record p {
  accounts = record p.accounts { user_dids = grant_row u.id d.id p.accounts.user_dids };
  assignments = put_division u.id d.id r.division r.department p.assignments;
})

-- The loop over the rows.
unfoldable pub create_dids : Helpers → Tenant → User → List ResolvedRow → People → Outcome People
unfolding resolve_did grant_row put_division
create_dids w t u [] p = ok p
create_dids w t u (r ∷ rs) p =
    next_of (with_did u r p (resolve_did w r.did_ref t.id p.accounts.dids))
      (λ p'. create_dids w t u rs p')

unfoldable pub create_dids_of : Helpers → Tenant → User → List ResolvedRow → People → Outcome People
unfolding is_feature_enabled create_dids
create_dids_of w t u [] p = ok p
create_dids_of w t u (r ∷ rs) p =
    if not (is_feature_enabled t (codes "calling"))
      && not (is_feature_enabled t (codes "messaging"))
    then invalid (codes "did_assignments")
    else create_dids w t u (r ∷ rs) p

abbrev pub answer_with : User → Outcome People → Outcome (User × People)
answer_with u o = next_of o (λ p. ok (u, p))

-- The user with its resources; `create_user` raises for a user without a tenant.
unfoldable pub create_in :
    Helpers → Form → List ResolvedRow → People → Option Tenant → Outcome (User × People)
unfolding new_user add_user create_extension_of create_dids_of
create_in w form rows p none = raises
create_in w form rows p (some t) =
    let u = new_user w form t p.next_id in
    answer_with u (
      next_of (create_extension_of w form.extension_ref t u (add_user u p))
        (λ p'. create_dids_of w t u rows p'))

unfoldable pub create_for :
    Helpers → Form → List ResolvedRow → People → Option Tenant → Outcome (User × People)
unfolding is_feature_enabled create_in
create_for w form rows p t =
    if given_boxes form.fax_boxes && not (enabled_for t (codes "fax"))
    then invalid (codes "fax_boxes")
    else create_in w form rows p t

-- The whole request of a caller.
unfoldable pub create_account : Helpers → Bool → User → Form → People → Outcome (User × People)
unfolding validate_form tenant_for create_for
create_account w invite caller form p =
    next_of (validate_form w invite form p)
      (λ rows. next_of (tenant_for w caller form p.accounts) (λ t. create_for w form rows p t))
