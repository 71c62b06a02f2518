-- ===== src/Scoping/Grants.antt =====
-- apps/common/tl_scoping.py, `_tl_entries` and `_tl_did_and_dept_ids`: the rows of a team lead's
-- grants and the numbers that they name.
use unified_communication_ba.Common.{
  ℕ, Bool, Option, none, some, List, [], ◌∷◌, ◌++◌, map, ◌&&◌, true, false, ◌==◌, nat_eq, select,
  first, contains,
}
use unified_communication_ba.Models.{Did, Assignment, AccessGroupEntry, TlGroupAccess, Extension}

-- The tables that the resolution reads.
pub record Tables : Type 0 where
  pub grants : List TlGroupAccess
  pub entries : List AccessGroupEntry
  pub dids : List Did
  pub assignments : List Assignment
  pub extensions : List Extension

-- A row of `_tl_entries`.
pub record Row : Type 0 where
  pub did_id : Option ℕ
  pub did_department_id : Option ℕ
  pub department_id : Option ℕ
  pub division_id : Option ℕ

-- What the outer join gives for a group that has no entries.
abbrev pub null_row : Row
null_row = record {
  did_id = none;
  did_department_id = none;
  department_id = none;
  division_id = none;
}

-- `did__department_id`, by the outer join on the entry's DID
unfoldable pub did_department : List Did → Option ℕ → Option ℕ
unfolding first
did_department dids none = none
did_department dids (some d) = elim (first (λ (x : Did). x.id == d) dids) [
  | none ↦ none
  | some x ↦ x.department
]

unfoldable pub row_of : List Did → AccessGroupEntry → Row
unfolding did_department
row_of dids e = record {
  did_id = e.did;
  did_department_id = did_department dids e.did;
  department_id = e.department;
  division_id = e.division;
}

-- The rows of one grant; none become the one null row.
unfoldable pub or_null_row : List Row → List Row
or_null_row [] = null_row ∷ []
or_null_row (r ∷ rs) = r ∷ rs

unfoldable pub grant_rows : Tables → TlGroupAccess → List Row
unfolding or_null_row row_of select
grant_rows t g =
    or_null_row
      (map (row_of t.dids) (select (λ (e : AccessGroupEntry). e.group == g.group) t.entries))

unfoldable pub join_rows : Tables → List TlGroupAccess → List Row
unfolding grant_rows
join_rows t [] = []
join_rows t (g ∷ gs) = grant_rows t g ++ join_rows t gs

unfoldable pub tl_entries : Tables → ℕ → List Row
unfolding join_rows select
tl_entries t user = join_rows t (select (λ (g : TlGroupAccess). g.user == user) t.grants)

abbrev pub cons_some : Option ℕ → List ℕ → List ℕ
cons_some none rest = rest
cons_some (some a) rest = a ∷ rest

-- The values of a nullable column that are set.
unfoldable pub present : {A : Type 0} → (A → Option ℕ) → List A → List ℕ
present f [] = []
present f (x ∷ xs) = cons_some (f x) (present f xs)

unfoldable pub direct_did_ids : List Row → List ℕ
unfolding present
direct_did_ids = present (λ r. r.did_id)

unfoldable pub explicit_dept_ids : List Row → List ℕ
unfolding present
explicit_dept_ids = present (λ r. r.department_id)

-- `filter(tenant_id=tenant_id)` where the user has a tenant
unfoldable pub in_tenant : Option ℕ → Did → Bool
in_tenant none d = true
in_tenant (some t) d = d.tenant == t

unfoldable pub in_departments : List ℕ → Did → Bool
unfolding contains
in_departments depts d = elim d.department [ none ↦ false | some k ↦ contains depts k ]

-- The DIDs under the departments that the rows name; of the tenant, if there is one.
unfoldable pub dept_did_ids : Tables → Option ℕ → List Row → List ℕ
unfolding select explicit_dept_ids in_tenant in_departments
dept_did_ids t tenant rows =
    map (λ (d : Did). d.id)
      (select (λ d. in_departments (explicit_dept_ids rows) d && in_tenant tenant d) t.dids)
