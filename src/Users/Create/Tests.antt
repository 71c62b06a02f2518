-- ===== src/Users/Create/Tests.antt =====
-- Tests and instances of the theorems on creating a user.
use unified_communication_ba.Common.{
  ℕ, ◌≡◌, refl, true, false, Option, none, some, [], ◌∷◌, Text, codes, nat_eq, contains, In, arith,
}
use unified_communication_ba.Models.{Tenant, User, Role, superadmin, admin, Extension, Did}
use unified_communication_ba.Access.{is_super_admin}
use unified_communication_ba.Users.Assign.{Accounts}
use unified_communication_ba.Users.Assign.Sound.{IsAssigned}
use unified_communication_ba.Common.{Bool, ◌==◌, nat_eq, list_eq, list_beq_iff}
use unified_communication_ba.Users.Login.{
  welcome, invalid_password, no_account, login, check_resources,
}
use unified_communication_ba.Users.Login.Created.{login-create_account}
use unified_communication_ba.Users.Create.Defs.{ok, raises, Form, People, Helpers}
use unified_communication_ba.Users.Create.Save.{create_account}
use unified_communication_ba.Users.Create.Caller.{value_or}
use unified_communication_ba.Users.Create.Kept.{IsFresh, create_account-IsAssigned}

abbrev company : ℕ → Tenant
company id = record {
  id = id;
  freeswitch_tenant_uuid = id;
  tenant_code = [];
  tenant_name = [];
  encrypted_api_key = [];
  features = (codes "calling", true) ∷ (codes "fax", true) ∷ [];
  sip_domain = [];
  is_active = true;
  telnyx_messaging_profile_id = [];
}

abbrev person : Role → ℕ → Option ℕ → User
person role id tenant = record {
  id = id;
  tenant = tenant;
  email = [];
  password = [];
  role = role;
  is_superuser = false;
  is_staff = false;
  is_team_lead = false;
  is_active = true;
  is_first_login = false;
  must_change_password = false;
  first_name = [];
  last_name = [];
  sip_domain = [];
  fax_boxes = [];
  features = [];
  voicemail_boxes = [];
}

abbrev phone : ℕ → ℕ → Option ℕ → Extension
phone id tenant owner = record {
  id = id;
  tenant = tenant;
  user = owner;
  freeswitch_object_id = [];
  extension_number = codes "103";
  sip_username = [];
  encrypted_sip_password = [];
  transport_type = codes "UDP";
}

abbrev line : Did
line = record {
  id = 5;
  tenant = 1;
  department = none;
  freeswitch_object_id = [];
  number = codes "+15559999";
  name = [];
  account = none;
}

-- User 1 of tenant 1 has extension 3; nobody has extension 4, which has the number that the form names.
abbrev accounts : Accounts
accounts = record {
  tenants = company 1 ∷ [];
  users = person admin 1 (some 1) ∷ [];
  extensions = phone 3 1 (some 1) ∷ record (phone 4 1 none) { extension_number = codes "104" } ∷ [];
  dids = line ∷ [];
  user_dids = [];
}

abbrev people : People
people = record {
  accounts = accounts;
  assignments = [];
  divisions = 6 ∷ [];
  departments = [];
  next_id = 2;
}

accounts-IsAssigned : IsAssigned accounts
unfolding contains
accounts-IsAssigned = record {
  users_distinct = (refl, tt);
  extensions_distinct = (refl, (refl, tt));
  dids_distinct = (refl, tt);
  one_extension = λ e f k i j p q. ground (arith, i, j, p, q);
  extension_tenant = λ e u i j p. ground (arith, i, j, p);
  did_tenant = λ r u d i j l p q. absurd i;
}

people-IsFresh : IsFresh people
people-IsFresh = record {
  users = λ u i. ground (arith, i);
  extensions = λ e k i q. ground (arith, i, q);
  user_dids = λ r i. absurd i;
}

-- The only UUID is "6".
abbrev six : Text → Option ℕ
six (c ∷ []) = some 6
six [] = none
six (c ∷ d ∷ s) = none

abbrev helpers : Helpers
helpers = record {
  parse_uuid = six;
  name_before = λ a b. false;
  make_password = λ s. s;
  temp_password = codes "temporary";
}

-- A superadmin with an extension, and a DID under division 6.
abbrev form : Form
form = record {
  email = codes " Eve@Example.com ";
  password = codes "secret";
  first_name = codes "Eve";
  last_name = [];
  role = some superadmin;
  tenant_ref = [];
  sip_domain = [];
  is_active = none;
  is_team_lead = none;
  must_change_password = none;
  extension_ref = codes "104";
  did_rows =
      (record { did_ref = codes "+15559999"; division_ref = codes "6"; department_ref = [] }) ∷ [];
  fax_boxes = [];
  voicemail_boxes = [];
}

-- The admin of tenant 1.
abbrev caller : User
caller = person admin 1 (some 1)

abbrev created : User × People
created = value_or (caller, people) (create_account helpers false caller form people)

creation-runs : create_account helpers false caller form people ≡ ok created
unfolding create_account
creation-runs = refl

created-email : created.0.email ≡ codes "eve@example.com"
unfolding create_account
created-email = refl

created-superadmin : is_super_admin created.0 ≡ true
unfolding create_account is_super_admin
created-superadmin = refl

-- The same form of a superadmin who names no tenant and no extension: `create_user` raises.
platform-raises :
    create_account helpers false
      (person superadmin 1 none)
      (record form { extension_ref = []; did_rows = [] })
      people
    ≡ raises
unfolding create_account
platform-raises = refl

create_account-IsAssigned_example :
    IsAssigned created.1.accounts × In created.0 created.1.accounts.users
create_account-IsAssigned_example =
    create_account-IsAssigned helpers false caller form people created.0 created.1 people-IsFresh
      accounts-IsAssigned creation-runs

abbrev check_password : Text → Text → Bool
check_password hash password = hash == password

logs_in :
    login check_password (codes "EVE@example.com") (codes "secret") created.1.accounts
    ≡ welcome created.0
unfolding login create_account
logs_in = refl

wrong_password :
    login check_password (codes "eve@example.com") [] created.1.accounts ≡ invalid_password
unfolding login create_account
wrong_password = refl

unknown_email : login check_password (codes "eve") (codes "secret") created.1.accounts ≡ no_account
unfolding login create_account
unknown_email = refl

accepts-own : (s : Text) → check_password (helpers.make_password s) s ≡ true
accepts-own s = (list_beq_iff s s).1 refl

created-active : created.0.is_active ≡ true
unfolding create_account
created-active = refl

login-create_account_example :
    login check_password (codes " Eve@Example.com ") (codes "secret") created.1.accounts
    ≡ check_resources created.0 created.1.accounts
login-create_account_example =
    login-create_account helpers form check_password accepts-own false caller people created.0
      created.1 people-IsFresh accounts-IsAssigned creation-runs created-active
