-- ===== src/Cdr/Tests.antt =====
-- Tests and instances of the theorems on the scoping of call records.
use unified_communication_ba.Common.{
  ℕ, ◌≡◌, ◌⊎◌, refl, true, false, none, some, List, [], ◌∷◌, Text, codes, In, arith, dedupe, nat_eq,
  list_eq, contains,
}
use unified_communication_ba.Models.{User, Extension, Role, user, admin, role_beq}
use unified_communication_ba.Scoping.{Tables, extension_of, resolve_tl_extensions}
use unified_communication_ba.Cdr.Params.{Params, query_params}
use unified_communication_ba.Cdr.Scope.{requested_extensions, resolve_requested_extensions}
use unified_communication_ba.Cdr.Joined.{NoComma}
use unified_communication_ba.Cdr.Allowed.{
  IsScoped, resolve_requested_extensions-own, resolve_requested_extensions-granted,
  resolve_requested_extensions-empty, resolve_requested_extensions-nobody,
}

abbrev someone : Role → ℕ → User
someone role id = record {
  id = id;
  tenant = some 1;
  email = codes "ann";
  password = [];
  role = role;
  is_superuser = false;
  is_staff = false;
  is_team_lead = false;
  is_active = true;
  is_first_login = false;
  must_change_password = false;
  first_name = [];
  last_name = [];
  sip_domain = [];
  fax_boxes = [];
  features = [];
  voicemail_boxes = [];
}

abbrev phone : ℕ → ℕ → Text → Extension
phone id owner number = record {
  id = id;
  tenant = 1;
  user = some owner;
  freeswitch_object_id = number;
  extension_number = number;
  sip_username = number;
  encrypted_sip_password = [];
  transport_type = codes "TCP";
}

-- Lead 2 is granted DID 5, which user 3 works; lead 4 is granted DID 6, which nobody works.
abbrev tables : Tables
tables = record {
  grants = record { user = 2; group = 1 } ∷ record { user = 4; group = 2 } ∷ [];
  entries =
      record { group = 1; did = some 5; department = none; division = none }
      ∷ record { group = 2; did = some 6; department = none; division = none }
      ∷ [];
  dids = [];
  assignments = record { user = 3; did = 5; division = 1; department = none } ∷ [];
  extensions = phone 1 3 (codes "103") ∷ [];
}

abbrev asking : Text → Params
asking s = query_params ((codes "extension", s ∷ []) ∷ [])

own_asking :
    requested_extensions (asking (codes "104, 103")) ≡ some (some (codes "104" ∷ codes "103" ∷ []))
unfolding requested_extensions query_params
own_asking = refl

granted_tables : resolve_tl_extensions tables (someone admin 2) ≡ some (codes "103" ∷ [])
unfolding resolve_tl_extensions
granted_tables = refl

empty_tables : resolve_tl_extensions tables (someone admin 4) ≡ some []
unfolding resolve_tl_extensions
empty_tables = refl

resolve_requested_extensions-own_example :
    IsScoped
      (some (codes "104" ∷ codes "103" ∷ []))
      (codes "103" ∷ [])
      (resolve_requested_extensions tables (someone user 3) (asking (codes "104, 103")))
unfolding extension_of
resolve_requested_extensions-own_example =
    resolve_requested_extensions-own tables (someone user 3) (asking (codes "104, 103")) refl
      (phone 1 3 (codes "103")) (some (codes "104" ∷ codes "103" ∷ [])) refl refl refl own_asking

single-NoComma : (x : Text) → In x (codes "103" ∷ []) → NoComma x
unfolding contains
single-NoComma x i = ground (arith, i)

resolve_requested_extensions-granted_example :
    IsScoped
      (some (codes "104" ∷ codes "103" ∷ []))
      (codes "103" ∷ [])
      (resolve_requested_extensions tables (someone admin 2) (asking (codes "104, 103")))
unfolding role_beq
resolve_requested_extensions-granted_example =
    resolve_requested_extensions-granted tables (someone admin 2) (asking (codes "104, 103")) refl
      (codes "103") [] (some (codes "104" ∷ codes "103" ∷ [])) refl granted_tables single-NoComma
      own_asking

resolve_requested_extensions-empty_example :
    resolve_requested_extensions tables (someone admin 4) [] ≡ some (some ([] ∷ []))
unfolding role_beq requested_extensions
resolve_requested_extensions-empty_example =
    resolve_requested_extensions-empty tables (someone admin 4) [] refl refl empty_tables refl

resolve_requested_extensions-nobody_example :
    ((some (codes "104" ∷ codes "103" ∷ []) ≡ none)
      × (resolve_requested_extensions tables (someone user 9) (asking (codes "104, 103"))
          ≡ some none))
    ⊎ ((req : List Text) × (some (codes "104" ∷ codes "103" ∷ []) ≡ some req)
        × (resolve_requested_extensions tables (someone user 9) (asking (codes "104, 103"))
            ≡ some (some (dedupe req))))
unfolding extension_of
resolve_requested_extensions-nobody_example =
    resolve_requested_extensions-nobody tables (someone user 9) (asking (codes "104, 103")) refl
      (some (codes "104" ∷ codes "103" ∷ [])) refl refl own_asking
