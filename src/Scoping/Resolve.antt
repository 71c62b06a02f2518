-- ===== src/Scoping/Resolve.antt =====
-- apps/common/tl_scoping.py, the `resolve_tl_*` functions and `is_scoped_team_lead`.
use unified_communication_ba.Common.{
  ℕ, Bool, Option, none, some, List, [], ◌∷◌, ◌++◌, ◌&&◌, ◌||◌, true, false, ◌==◌, nat_eq,
  option_eq, select, first, any, contains, Text, nonempty, if◌then◌else◌,
}
use unified_communication_ba.Models.{
  Assignment, TlGroupAccess, Extension, User, superadmin, role_beq,
}
use unified_communication_ba.Scoping.Grants.{Tables, Row, tl_entries, direct_did_ids, dept_did_ids}

-- `division_to_dids`: for each division of the grants, or for none, a set of DIDs.
abbrev pub Divisions : Type 0
Divisions = List (Option ℕ × List ℕ)

-- `division_to_dids[division_id].update(dids)`, on a `defaultdict(set)`
unfoldable pub add_dids : Option ℕ → List ℕ → Divisions → Divisions
add_dids k new [] = (k, new) ∷ []
add_dids k new ((j, old) ∷ m) = if k == j then (j, new ++ old) ∷ m else (j, old) ∷ add_dids k new m

unfoldable pub add_direct : Row → Divisions → Divisions
unfolding add_dids
add_direct r m = elim r.did_id [ none ↦ m | some d ↦ add_dids r.division_id (d ∷ []) m ]

unfoldable pub add_department : List ℕ → Row → Divisions → Divisions
unfolding add_dids
add_department depts r m = elim r.department_id [
  | none ↦ m
  | some k ↦ add_dids r.division_id depts m
]

unfoldable pub division_to_dids : List ℕ → List Row → Divisions → Divisions
unfolding add_direct add_department
division_to_dids depts [] m = m
division_to_dids depts (r ∷ rs) m =
    division_to_dids depts rs (add_department depts r (add_direct r m))

-- `Q(did_id__in=did_ids)`, and `Q(division_id=division_id)` where there is a division
unfoldable pub clause : Option ℕ × List ℕ → Assignment → Bool
unfolding contains
clause (none, dids) a = contains dids a.did
clause (some k, dids) a = contains dids a.did && a.division == k

abbrev pub some_did : Option ℕ × List ℕ → Bool
some_did (k, []) = false
some_did (k, d ∷ ds) = true

-- A `Q` with no clause at all filters nothing.
unfoldable pub combined : Divisions → Assignment → Bool
unfolding any clause
combined [] a = true
combined (c ∷ cs) a = any (λ q. clause q a) (c ∷ cs)

-- `getattr(assignment.user, "extension", None)`
unfoldable pub extension_of : List Extension → ℕ → Option Extension
unfolding first
extension_of exts u = first (λ (x : Extension). x.user == some u) exts

unfoldable pub collect : List Extension → List Assignment → List Text
unfolding extension_of
collect exts [] = []
collect exts (a ∷ as') =
    let rest = collect exts as' in
    elim (extension_of exts a.user) [
      | none ↦ rest
      | some x ↦ if nonempty x.extension_number then x.extension_number ∷ rest else rest
    ]

unfoldable pub callers : Tables → Divisions → List Text
unfolding combined select collect
callers t [] = []
callers t (c ∷ cs) =
    collect t.extensions (select (combined (select some_did (c ∷ cs))) t.assignments)

unfoldable pub extensions_of_rows : Tables → Option ℕ → List Row → List Text
unfolding dept_did_ids division_to_dids callers
extensions_of_rows t tenant rows = callers t (division_to_dids (dept_did_ids t tenant rows) rows [])

-- `None` where the user has no grants.
unfoldable pub scoped : {A : Type 0} → List Row → A → Option A
scoped [] v = none
scoped (r ∷ rs) v = some v

unfoldable pub resolve_tl_extensions : Tables → User → Option (List Text)
unfolding tl_entries scoped extensions_of_rows
resolve_tl_extensions t u =
    scoped (tl_entries t u.id) (extensions_of_rows t u.tenant (tl_entries t u.id))

unfoldable pub resolve_tl_did_ids : Tables → User → Option (List ℕ)
unfolding tl_entries scoped direct_did_ids dept_did_ids
resolve_tl_did_ids t u =
    let rows = tl_entries t u.id in
    scoped rows (direct_did_ids rows ++ dept_did_ids t u.tenant rows)

unfoldable pub department_ids : List Row → List ℕ
department_ids [] = []
department_ids (r ∷ rs) =
    let rest = department_ids rs in
    let own : List ℕ = elim r.did_id [
      | none ↦ rest
      | some d ↦ elim r.did_department_id [ none ↦ rest | some k ↦ k ∷ rest ]
    ] in
    elim r.department_id [ none ↦ own | some k ↦ k ∷ own ]

unfoldable pub resolve_tl_department_ids : Tables → User → Option (List ℕ)
unfolding tl_entries scoped department_ids
resolve_tl_department_ids t u = scoped (tl_entries t u.id) (department_ids (tl_entries t u.id))

-- The loop returns `None` at the first row without a division.
unfoldable pub division_ids : List Row → Option (List ℕ)
division_ids [] = some []
division_ids (r ∷ rs) =
    let rest = division_ids rs in
    elim r.division_id [
      | none ↦ none
      | some k ↦ elim rest [ none ↦ none | some ks ↦ some (k ∷ ks) ]
    ]

unfoldable pub or_no_grants : List Row → Option (List ℕ)
unfolding division_ids
or_no_grants [] = none
or_no_grants (r ∷ rs) = division_ids (r ∷ rs)

unfoldable pub resolve_tl_division_ids : Tables → User → Option (List ℕ)
unfolding tl_entries or_no_grants
resolve_tl_division_ids t u = or_no_grants (tl_entries t u.id)

-- `user.is_superuser or user.role == "superadmin"`
unfoldable pub is_platform_admin : User → Bool
unfolding role_beq
is_platform_admin u = u.is_superuser || role_beq u.role superadmin

unfoldable pub is_scoped_team_lead : Tables → User → Bool
unfolding is_platform_admin any
is_scoped_team_lead t u =
    if is_platform_admin u then false else any (λ (g : TlGroupAccess). g.user == u.id) t.grants
