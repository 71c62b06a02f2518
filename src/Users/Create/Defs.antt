-- ===== src/Users/Create/Defs.antt =====
-- What a request to create a user gives, and what comes of it. Fax boxes and voicemail boxes are those that the
-- validators have accepted.
use unified_communication_ba.Common.{ℕ, Bool, Option, List, Text}
use unified_communication_ba.Models.{Role, FaxBox, Assignment}
use unified_communication_ba.Users.Assign.{Accounts}

-- A value, an error of a field, or another exception. Neither of the last two changes anything.
pub data Outcome (A : Type 0) : Type 0 where
  ok : A → Outcome A
  invalid : Text → Outcome A
  raises : Outcome A

abbrev pub next_of : {A B : Type 0} → Outcome A → (A → Outcome B) → Outcome B
next_of (ok a) f = f a
next_of (invalid field) f = invalid field
next_of raises f = raises

-- A row of `did_assignments`, with missing references as empty texts.
pub record DidRow : Type 0 where
  pub did_ref : Text
  pub division_ref : Text
  pub department_ref : Text

-- The row with the ids of its division and its department.
pub record ResolvedRow : Type 0 where
  pub did_ref : Text
  pub division : Option ℕ
  pub department : Option ℕ

-- `validated_data`: a key that is missing is `none`; a missing or null reference is empty. An
-- invitation has an empty `password` and no `must_change_password`.
pub record Form : Type 0 where
  pub email : Text
  pub password : Text
  pub first_name : Text
  pub last_name : Text
  pub role : Option Role
  pub tenant_ref : Text
  pub sip_domain : Text
  pub is_active : Option Bool
  pub is_team_lead : Option Bool
  pub must_change_password : Option Bool
  pub extension_ref : Text
  pub did_rows : List DidRow
  pub fax_boxes : List FaxBox
  pub voicemail_boxes : List ℕ

-- The tables, and the id of the next user.
pub record People : Type 0 where
  pub accounts : Accounts
  pub assignments : List Assignment
  pub divisions : List ℕ
  pub departments : List ℕ
  pub next_id : ℕ

-- The parser of UUIDs, the collation of the database, the hash of a password, and the password that
-- `generate_temp_password` draws.
pub record Helpers : Type 0 where
  pub parse_uuid : Text → Option ℕ
  pub name_before : Text → Text → Bool
  pub make_password : Text → Text
  pub temp_password : Text
