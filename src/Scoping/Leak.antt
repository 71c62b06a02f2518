-- ===== src/Scoping/Leak.antt =====
-- `resolve_tl_extensions` where the grants name a department that holds no DID.
use unified_communication_ba.Common.{
  ℕ, false, ◌≡◌, ◌≢◌, refl, inl, inr, Option, some, List, [], ◌∷◌, ◌++◌, any, ap, arith, In,
  Option-cases, ◌∙◌, sym,
}
use unified_communication_ba.Models.{User, AccessGroupEntry, TlGroupAccess}
use unified_communication_ba.Scoping.Grants.{
  Tables, Row, row_of, tl_entries, direct_did_ids, dept_did_ids, present,
}
use unified_communication_ba.Scoping.Rows.{EntryRow-In}
use unified_communication_ba.Scoping.Resolve.{
  Divisions, add_dids, add_direct, add_department, division_to_dids, collect, extensions_of_rows,
  resolve_tl_extensions, resolve_tl_did_ids,
}
use unified_communication_ba.Scoping.Callers.{gives, combined-all}
use unified_communication_ba.Scoping.Visible.{callers-none, resolved-some, scoped-nonempty}

gives-none : (rows : List Row) → direct_did_ids rows ≡ [] → any (gives []) rows ≡ false
unfolding direct_did_ids present any gives
gives-none [] h = refl
gives-none (r ∷ rows) h = elim (Option-cases r.did_id) [
  | inl e ↦ ground (arith, gives-none rows)
  | inr (d, e) ↦ ground arith
]

append-nil_parts : (xs ys : List ℕ) → xs ++ ys ≡ [] → (xs ≡ []) × (ys ≡ [])
append-nil_parts [] ys h = (refl, h)
append-nil_parts (x ∷ xs) ys h = cc

add_dids-ne : (k : Option ℕ) (new : List ℕ) (m : Divisions) → add_dids k new m ≢ []
unfolding add_dids
add_dids-ne k new [] h = cc
add_dids-ne k new ((j, old) ∷ m) h = ground arith

add_direct-ne : (r : Row) (m : Divisions) → m ≢ [] → add_direct r m ≢ []
unfolding add_direct
add_direct-ne r m ne = elim (Option-cases r.did_id) [
  | inl e ↦ rw e ne
  | inr (d, e) ↦ rw e (add_dids-ne r.division_id (d ∷ []) m)
]

add_department-ne :
    (depts : List ℕ) (r : Row) (m : Divisions) → m ≢ [] → add_department depts r m ≢ []
unfolding add_department
add_department-ne depts r m ne = elim (Option-cases r.department_id) [
  | inl e ↦ rw e ne
  | inr (k, e) ↦ rw e (add_dids-ne r.division_id depts m)
]

named-ne :
    (depts : List ℕ) (r : Row) (k : ℕ) (m : Divisions)
    → r.department_id ≡ some k
    → add_department depts r m ≢ []
unfolding add_department
named-ne depts r k m e = rw e (add_dids-ne r.division_id depts m)

division_to_dids-ne :
    (depts : List ℕ) (rows : List Row) (m : Divisions) → m ≢ [] → division_to_dids depts rows m ≢ []
unfolding division_to_dids
division_to_dids-ne depts [] m ne = ne
division_to_dids-ne depts (r ∷ rows) m ne =
    division_to_dids-ne depts rows (add_department depts r (add_direct r m))
      (add_department-ne depts r (add_direct r m) (add_direct-ne r m ne))

listed-ne :
    (depts : List ℕ) (r : Row) (k : ℕ) (rows : List Row) (m : Divisions)
    → In r rows
    → r.department_id ≡ some k
    → division_to_dids depts rows m ≢ []
unfolding division_to_dids
listed-ne depts r k [] m i e = absurd i
listed-ne depts r k (x ∷ rows) m (inl q) e =
    division_to_dids-ne depts rows (add_department depts x (add_direct x m))
      (named-ne depts x k (add_direct x m) (ap (λ (y : Row). y.department_id) (sym q) ∙ e))
listed-ne depts r k (x ∷ rows) m (inr i) e =
    listed-ne depts r k rows (add_department depts x (add_direct x m)) i e

-- When the grants of a user resolve to no DID at all, and one of them names a department, the user sees
-- the extension of every caller of the whole assignment table, whatever its DID, division or tenant.
pub resolve_tl_extensions-everyone :
    (t : Tables) (u : User) (g : TlGroupAccess) (e : AccessGroupEntry) (k : ℕ)
    → In g t.grants
    → g.user ≡ u.id
    → In e t.entries
    → e.group ≡ g.group
    → e.department ≡ some k
    → resolve_tl_did_ids t u ≡ some []
    → resolve_tl_extensions t u ≡ some (collect t.extensions t.assignments)
unfolding resolve_tl_extensions extensions_of_rows
resolve_tl_extensions-everyone t u g e k a b c d n h =
    let rows = tl_entries t u.id in
    let depts = dept_did_ids t u.tenant rows in
    let (q, ne) = resolved-some t u [] h in
    let (p, s) = append-nil_parts (direct_did_ids rows) depts q in
    let i = EntryRow-In t u.id (row_of t.dids e) (record {
      grant = g;
      entry = e;
      granted = a;
      to_user = b;
      listed = c;
      grouped = d;
      is_row = refl;
    }) in
    scoped-nonempty rows (extensions_of_rows t u.tenant rows) ne
    ∙ ap some (
        callers-none t (division_to_dids depts rows [])
          (listed-ne depts (row_of t.dids e) k rows [] i (unfold row_of in n))
          (λ x. combined-all depts rows x (rw s (gives-none rows p))))
