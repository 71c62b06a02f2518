-- ===== src/Users/Assign/Tests.antt =====
-- Tests and instances of the theorems on the views that assign resources.
use unified_communication_ba.Common.{
  ℕ, ◌≡◌, ◌≢◌, refl, true, false, Option, none, some, List, [], ◌∷◌, codes, nat_eq, contains, In,
  arith,
}
use unified_communication_ba.Models.{Tenant, User, Role, admin, user, Extension, Did}
use unified_communication_ba.Access.{is_admin_or_super_admin}
use unified_communication_ba.Users.Assign.Tables.{Accounts, done, find_user}
use unified_communication_ba.Users.Assign.Views.{
  AssignRequest, extension_post, extension_delete, did_post, handle_assignment,
}
use unified_communication_ba.Users.Assign.Sound.{IsAssigned}
use unified_communication_ba.Users.Assign.Served.{
  run_assignments, run_assignments-IsAssigned, handle_assignment-any_tenant,
}

abbrev company : ℕ → Tenant
company id = record {
  id = id;
  freeswitch_tenant_uuid = id;
  tenant_code = [];
  tenant_name = [];
  encrypted_api_key = [];
  features = (codes "calling", true) ∷ (codes "fax", true) ∷ [];
  sip_domain = [];
  is_active = true;
  telnyx_messaging_profile_id = [];
}

abbrev person : Role → ℕ → Option ℕ → User
person role id tenant = record {
  id = id;
  tenant = tenant;
  email = [];
  password = [];
  role = role;
  is_superuser = false;
  is_staff = false;
  is_team_lead = false;
  is_active = true;
  is_first_login = false;
  must_change_password = false;
  first_name = [];
  last_name = [];
  sip_domain = [];
  fax_boxes = [];
  features = [];
  voicemail_boxes = [];
}

abbrev phone : ℕ → ℕ → Option ℕ → Extension
phone id tenant owner = record {
  id = id;
  tenant = tenant;
  user = owner;
  freeswitch_object_id = [];
  extension_number = [];
  sip_username = [];
  encrypted_sip_password = [];
  transport_type = codes "UDP";
}

abbrev line : Did
line = record {
  id = 5;
  tenant = 1;
  department = none;
  freeswitch_object_id = [];
  number = [];
  name = [];
  account = none;
}

-- User 1 of tenant 1 has extension 3, user 2 has neither a tenant nor an extension, user 9 administers tenant 2.
abbrev accounts : Accounts
accounts = record {
  tenants = company 1 ∷ company 2 ∷ [];
  users = person user 1 (some 1) ∷ person user 2 none ∷ [];
  extensions = phone 3 1 (some 1) ∷ phone 4 1 none ∷ [];
  dids = line ∷ [];
  user_dids = [];
}

abbrev other_admin : User
other_admin = person admin 9 (some 2)

accounts-IsAssigned : IsAssigned accounts
unfolding contains
accounts-IsAssigned = record {
  users_distinct = (refl, (refl, tt));
  extensions_distinct = (refl, (refl, tt));
  dids_distinct = (refl, tt);
  one_extension = λ e f k i j p q. ground (arith, i, j, p, q);
  extension_tenant = λ e u i j p. ground (arith, i, j, p);
  did_tenant = λ r u d i j l p q. absurd i;
}

-- User 2 gets extension 3, which user 1 had, then extension 4, and the tenant with it.
abbrev requests : List (Option User × ℕ × AssignRequest)
requests =
    (some other_admin, 2, extension_post 3)
    ∷ (some other_admin, 2, extension_post 4)
    ∷ (none, 1, did_post 5)
    ∷ (some other_admin, 2, did_post 5)
    ∷ []

run-users :
    (run_assignments requests accounts).users ≡ person user 1 (some 1) ∷ person user 2 (some 1) ∷ []
unfolding run_assignments
run-users = refl

run-extensions :
    (run_assignments requests accounts).extensions ≡ phone 3 1 none ∷ phone 4 1 (some 2) ∷ []
unfolding run_assignments
run-extensions = refl

run-dids : (run_assignments requests accounts).user_dids ≡ (record { user = 2; did = 5 }) ∷ []
unfolding run_assignments
run-dids = refl

run_assignments-IsAssigned_example : IsAssigned (run_assignments requests accounts)
run_assignments-IsAssigned_example =
    run_assignments-IsAssigned requests accounts accounts-IsAssigned

handle_assignment-any_tenant_example :
    ((handle_assignment (some other_admin) 1 extension_delete accounts).0 ≡ done)
    × ((e : Extension)
        → In e (handle_assignment (some other_admin) 1 extension_delete accounts).1.extensions
        → e.user ≢ some 1)
unfolding is_admin_or_super_admin find_user
handle_assignment-any_tenant_example =
    handle_assignment-any_tenant other_admin (person user 1 (some 1)) 1 accounts refl refl
