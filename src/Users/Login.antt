-- ===== src/Users/Login.antt =====
-- apps/users/serializers.py, `LoginSerializer.validate`.
pub mod Created
use unified_communication_ba.Common.{
  ℕ, Bool, true, false, not, ◌&&◌, Option, none, some, List, Text, codes, ◌==◌, nat_eq, list_eq,
  option_eq, if◌then◌else◌, first, any,
}
use unified_communication_ba.Models.{Tenant, User, Extension, UserDid}
use unified_communication_ba.Users.Features.{is_feature_enabled}
use unified_communication_ba.Users.Assign.{Accounts}
use unified_communication_ba.Users.Create.{normalize_email, tenant_with, enabled_for}

-- The user who logs in, or the detail of the error.
pub data LoginAnswer : Type 0 where
  welcome : User → LoginAnswer
  no_account : LoginAnswer
  invalid_password : LoginAnswer
  disabled : LoginAnswer
  calling_resources_missing : LoginAnswer
  extension_missing : LoginAnswer
  did_missing : LoginAnswer
  messaging_did_missing : LoginAnswer

unfoldable pub has_extension : User → Accounts → Bool
unfolding any
has_extension u a = any (λ (e : Extension). e.user == some u.id) a.extensions

unfoldable pub has_any_did : User → Accounts → Bool
unfolding any
has_any_did u a = any (λ (r : UserDid). r.user == u.id) a.user_dids

-- The resources that the features of the tenant ask for.
unfoldable pub check_resources : User → Accounts → LoginAnswer
unfolding first is_feature_enabled has_extension has_any_did
check_resources u a =
    let tenant = tenant_with u.tenant a.tenants in
    if enabled_for tenant (codes "calling")
    then (if not (has_extension u a) && not (has_any_did u a)
        then calling_resources_missing
        else if not (has_extension u a)
        then extension_missing
        else if not (has_any_did u a)
        then did_missing
        else welcome u)
    else if enabled_for tenant (codes "messaging") && not (has_any_did u a)
    then messaging_did_missing
    else welcome u

-- `check_password` compares the stored hash with a password.
unfoldable pub login_of : (Text → Text → Bool) → Text → Accounts → Option User → LoginAnswer
unfolding check_resources
login_of check_password password a none = no_account
login_of check_password password a (some u) =
    if not (check_password u.password password)
    then invalid_password
    else if not u.is_active
    then disabled
    else check_resources u a

unfoldable pub login : (Text → Text → Bool) → Text → Text → Accounts → LoginAnswer
unfolding normalize_email first login_of
login check_password email password a =
    login_of check_password password a
      (first (λ (u : User). u.email == normalize_email email) a.users)
