-- ===== src/Scoping/Tests.antt =====
-- The theorems of this folder at small tables: two tenants, a department without DIDs, an empty group.
use unified_communication_ba.Common.{
  ℕ, true, false, ◌≡◌, ◌↔◌, refl, inl, inr, Option, none, some, List, [], ◌∷◌, codes, In, any,
  select,
}
use unified_communication_ba.Models.{Did, AccessGroupEntry, Extension, User, admin}
use unified_communication_ba.Scoping.{
  Tables, Row, tl_entries, dept_did_ids, collect, resolve_tl_extensions, resolve_tl_did_ids,
  resolve_tl_division_ids,
}
use unified_communication_ba.Scoping.DidIds.{GrantedDid, resolve_tl_did_ids-GrantedDid}
use unified_communication_ba.Scoping.Callers.{covers}
use unified_communication_ba.Scoping.Visible.{resolve_tl_extensions-covers}
use unified_communication_ba.Scoping.Leak.{resolve_tl_extensions-everyone}
use unified_communication_ba.Scoping.Divisions.{resolve_tl_division_ids-Named}

abbrev lead : ℕ → User
lead n = record {
  id = n;
  tenant = some 1;
  email = codes "lead@a.example";
  password = [];
  role = admin;
  is_superuser = false;
  is_staff = false;
  is_team_lead = true;
  is_active = true;
  is_first_login = false;
  must_change_password = false;
  first_name = [];
  last_name = [];
  sip_domain = [];
  fax_boxes = [];
  features = [];
  voicemail_boxes = [];
}

abbrev did_of : ℕ → ℕ → Option ℕ → Did
did_of n t d = record {
  id = n;
  tenant = t;
  department = d;
  freeswitch_object_id = [];
  number = [];
  name = [];
  account = none;
}

abbrev extension_for : ℕ → ℕ → List ℕ → Extension
extension_for n t number = record {
  id = n;
  tenant = t;
  user = some n;
  freeswitch_object_id = [];
  extension_number = number;
  sip_username = [];
  encrypted_sip_password = [];
  transport_type = codes "UDP";
}

abbrev entry_of : ℕ → Option ℕ → Option ℕ → Option ℕ → AccessGroupEntry
entry_of g d k v = record { group = g; did = d; department = k; division = v }

-- User 1 is granted the department 5, user 2 the department 6, which has no DID, user 3 an empty group.
abbrev tables : Tables
tables = record {
  grants =
      record { user = 1; group = 1 }
      ∷ record { user = 2; group = 2 }
      ∷ record { user = 3; group = 3 }
      ∷ [];
  entries = entry_of 1 none (some 5) (some 7) ∷ entry_of 2 none (some 6) (some 7) ∷ [];
  dids = did_of 11 1 (some 5) ∷ did_of 12 1 none ∷ did_of 21 2 (some 5) ∷ [];
  assignments =
      record { user = 31; did = 11; division = 7; department = none }
      ∷ record { user = 32; did = 12; division = 7; department = none }
      ∷ record { user = 41; did = 21; division = 7; department = none }
      ∷ [];
  extensions =
      extension_for 31 1 (codes "101")
      ∷ extension_for 32 1 (codes "102")
      ∷ extension_for 41 2 (codes "900")
      ∷ [];
}

dids_of_1 : resolve_tl_did_ids tables (lead 1) ≡ some (11 ∷ [])
unfolding resolve_tl_did_ids
dids_of_1 = refl

extensions_of_1 : resolve_tl_extensions tables (lead 1) ≡ some (codes "101" ∷ [])
unfolding resolve_tl_extensions
extensions_of_1 = refl

dids_of_2 : resolve_tl_did_ids tables (lead 2) ≡ some []
unfolding resolve_tl_did_ids
dids_of_2 = refl

-- The lead of an empty department sees the callers of both tenants.
extensions_of_2 :
    resolve_tl_extensions tables (lead 2) ≡ some (codes "101" ∷ codes "102" ∷ codes "900" ∷ [])
unfolding resolve_tl_extensions
extensions_of_2 = refl

divisions_of_1 : resolve_tl_division_ids tables (lead 1) ≡ some (7 ∷ [])
unfolding resolve_tl_division_ids
divisions_of_1 = refl

resolve_tl_did_ids-GrantedDid_example : In {A = ℕ} 11 (11 ∷ []) ↔ GrantedDid tables (lead 1) 11
resolve_tl_did_ids-GrantedDid_example =
    resolve_tl_did_ids-GrantedDid tables (lead 1) (11 ∷ []) 11 dids_of_1

resolve_tl_extensions-covers_example :
    resolve_tl_extensions tables (lead 1)
    ≡ some (
        collect tables.extensions (
          select
            (λ a.
              any
                (λ r. covers (dept_did_ids tables (some 1) (tl_entries tables 1)) r a)
                (tl_entries tables 1))
            tables.assignments))
resolve_tl_extensions-covers_example = resolve_tl_extensions-covers tables (lead 1) 11 [] dids_of_1

resolve_tl_extensions-everyone_example :
    resolve_tl_extensions tables (lead 2) ≡ some (collect tables.extensions tables.assignments)
resolve_tl_extensions-everyone_example =
    resolve_tl_extensions-everyone tables (lead 2) (record { user = 2; group = 2 })
      (entry_of 2 none (some 6) (some 7)) 6 (inr (inl refl)) refl (inr (inl refl)) refl refl
      dids_of_2

resolve_tl_division_ids-Named_example :
    ((k : ℕ) → In k (7 ∷ []) ↔ ((r : Row) × In r (tl_entries tables 1) × (r.division_id ≡ some k)))
    × ((r : Row) → In r (tl_entries tables 1) → (k : ℕ) × (r.division_id ≡ some k))
resolve_tl_division_ids-Named_example =
    resolve_tl_division_ids-Named tables (lead 1) (7 ∷ []) divisions_of_1
