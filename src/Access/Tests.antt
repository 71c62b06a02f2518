-- ===== src/Access/Tests.antt =====
-- Tests and instances of the theorems on access.
use unified_communication_ba.Common.{
  ℕ, ◌≡◌, ◌⊎◌, refl, Bool, true, false, Option, none, some, [], ◌∷◌, Text, codes, strip, In,
}
use unified_communication_ba.Models.{Tenant, User, Role, user, superadmin}
use unified_communication_ba.Access.{
  is_super_admin, is_supervisor_or_admin, has_permission, found, tenant_id_required,
  tenant_not_found, get_scoped_tenant,
}
use unified_communication_ba.Access.Scope.{Names, get_scoped_tenant-Names}

abbrev acme : Tenant
acme = record {
  id = 1;
  freeswitch_tenant_uuid = 65;
  tenant_code = codes "HVA";
  tenant_name = codes "Acme";
  encrypted_api_key = [];
  features = [];
  sip_domain = [];
  is_active = true;
  telnyx_messaging_profile_id = [];
}

abbrev someone : Role → Option ℕ → User
someone role tenant = record {
  id = 2;
  tenant = tenant;
  email = codes "ann";
  password = [];
  role = role;
  is_superuser = false;
  is_staff = false;
  is_team_lead = false;
  is_active = true;
  is_first_login = false;
  must_change_password = false;
  first_name = [];
  last_name = [];
  sip_domain = [];
  fax_boxes = [];
  features = [];
  voicemail_boxes = [];
}

-- No text is a UUID here.
abbrev parse : Text → Option ℕ
parse s = none

abbrev name_before : Text → Text → Bool
name_before a b = false

scoped-code :
    get_scoped_tenant parse name_before (someone superadmin none) (codes " hva ") (acme ∷ [])
    ≡ found acme
unfolding get_scoped_tenant
scoped-code = refl

scoped-missing :
    get_scoped_tenant parse name_before (someone superadmin none) [] (acme ∷ [])
    ≡ tenant_id_required
unfolding get_scoped_tenant
scoped-missing = refl

scoped-unknown :
    get_scoped_tenant parse name_before (someone superadmin none) (codes "X") (acme ∷ [])
    ≡ tenant_not_found (codes "X")
unfolding get_scoped_tenant
scoped-unknown = refl

scoped-user :
    get_scoped_tenant parse name_before (someone user (some 1)) (codes "X") (acme ∷ []) ≡ found acme
unfolding get_scoped_tenant
scoped-user = refl

permission-nobody : has_permission is_supervisor_or_admin none ≡ false
unfolding has_permission
permission-nobody = refl

get_scoped_tenant-Names_example :
    In acme (acme ∷ [])
    × (((is_super_admin (someone superadmin none) ≡ false)
          × ((someone superadmin none).tenant ≡ some 1))
        ⊎ ((is_super_admin (someone superadmin none) ≡ true)
            × Names parse (strip (codes " hva ")) acme))
get_scoped_tenant-Names_example =
    get_scoped_tenant-Names parse name_before (acme ∷ []) (someone superadmin none) (codes " hva ")
      acme scoped-code
