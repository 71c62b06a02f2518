-- ===== src/Scoping/Callers.antt =====
-- `resolve_tl_extensions`: the dictionary of divisions against the rows, taken one by one.
use unified_communication_ba.Common.{
  ℕ, Bool, true, false, ◌≡◌, refl, inl, inr, ◌&&◌, ◌||◌, Option, none, some, List, [], ◌∷◌, ◌++◌,
  nat_eq, option_eq, ◌==◌, option_beq_iff, any, contains, select, is_some, arith, nonempty,
  Option-cases,
}
use unified_communication_ba.Models.{Assignment}
use unified_communication_ba.Scoping.Grants.{Row}
use unified_communication_ba.Scoping.Resolve.{
  Divisions, add_dids, add_direct, add_department, division_to_dids, clause, some_did, combined,
}

-- A division of a row admits an assignment: all do if there is none.
abbrev pub division_fits : Option ℕ → Assignment → Bool
division_fits none a = true
division_fits (some k) a = a.division == k

abbrev pub names_did : Option ℕ → Assignment → Bool
names_did none a = false
names_did (some d) a = a.did == d

-- A row covers an assignment by its DID, or by having a department and the DID being among `depts`.
unfoldable pub covers : List ℕ → Row → Assignment → Bool
covers depts r a =
    (names_did r.did_id a || (is_some r.department_id && contains depts a.did))
    && division_fits r.division_id a

contains-append : (xs ys : List ℕ) (d : ℕ) → contains (xs ++ ys) d ≡ contains xs d || contains ys d
unfolding contains
contains-append [] ys d = ground arith
contains-append (x ∷ xs) ys d = ground (arith, contains-append xs ys d)

clause_lem :
    (k : Option ℕ) (ds : List ℕ) (a : Assignment)
    → clause (k, ds) a ≡ contains ds a.did && division_fits k a
unfolding clause
clause_lem none ds a = ground arith
clause_lem (some k) ds a = ground arith

abbrev any_clause : Divisions → Assignment → Bool
any_clause m a = any (λ q. clause q a) m

any_clause-add_dids :
    (k : Option ℕ) (new : List ℕ) (m : Divisions) (a : Assignment)
    → any_clause (add_dids k new m) a ≡ (contains new a.did && division_fits k a) || any_clause m a
unfolding any add_dids
any_clause-add_dids k new [] a = ground (arith, clause_lem k new a)
any_clause-add_dids k new ((j, old) ∷ m) a = ground (
  arith,
  clause_lem j old a,
  clause_lem j (new ++ old) a,
  contains-append new old a.did,
  option_beq_iff k j,
  any_clause-add_dids k new m a,
)

any_clause-row :
    (depts : List ℕ) (r : Row) (m : Divisions) (a : Assignment)
    → any_clause (add_department depts r (add_direct r m)) a ≡ covers depts r a || any_clause m a
unfolding add_department add_direct covers contains
any_clause-row depts r m a = elim (Option-cases r.did_id) [
  | inl e ↦ elim (Option-cases r.department_id) [
    | inl f ↦ rw (e, f) (ground arith)
    | inr (k, f) ↦ rw (e, f) (ground (arith, any_clause-add_dids r.division_id depts m a))
  ]
  | inr (d, e) ↦ elim (Option-cases r.department_id) [
    | inl f ↦ rw (e, f) (ground (arith, any_clause-add_dids r.division_id (d ∷ []) m a))
    | inr (k, f) ↦
        rw (e, f)
          (ground (
            arith,
            any_clause-add_dids r.division_id depts (add_dids r.division_id (d ∷ []) m) a,
            any_clause-add_dids r.division_id (d ∷ []) m a,
          ))
  ]
]

any_clause-division_to_dids :
    (depts : List ℕ) (rows : List Row) (m : Divisions) (a : Assignment)
    → any_clause (division_to_dids depts rows m) a
      ≡ any (λ r. covers depts r a) rows || any_clause m a
unfolding division_to_dids any
any_clause-division_to_dids depts [] m a = ground arith
any_clause-division_to_dids depts (r ∷ rows) m a = ground (
  arith,
  any_clause-division_to_dids depts rows (add_department depts r (add_direct r m)) a,
  any_clause-row depts r m a,
)

clause_nil : (k : Option ℕ) (a : Assignment) → clause (k, []) a ≡ false
unfolding clause contains
clause_nil none a = refl
clause_nil (some k) a = refl

-- Pairs without a DID have no clause, and would match nothing.
any_clause-some_did :
    (m : Divisions) (a : Assignment) → any_clause (select some_did m) a ≡ any_clause m a
unfolding any select contains
any_clause-some_did [] a = refl
any_clause-some_did ((k, []) ∷ m) a = ground (arith, clause_lem k [] a, any_clause-some_did m a)
any_clause-some_did ((k, d ∷ ds) ∷ m) a = ground (arith, any_clause-some_did m a)

-- A row puts a DID into the dictionary.
unfoldable pub gives : List ℕ → Row → Bool
gives depts r = is_some r.did_id || (is_some r.department_id && nonempty depts)

some_did-add_dids :
    (k : Option ℕ) (new : List ℕ) (m : Divisions)
    → any some_did (add_dids k new m) ≡ nonempty new || any some_did m
unfolding any add_dids
some_did-add_dids k [] [] = refl
some_did-add_dids k (d ∷ ds) [] = refl
some_did-add_dids k [] ((j, old) ∷ m) = ground (arith, some_did-add_dids k [] m)
some_did-add_dids k (d ∷ ds) ((j, []) ∷ m) = ground (arith, some_did-add_dids k (d ∷ ds) m)
some_did-add_dids k (d ∷ ds) ((j, e ∷ es) ∷ m) = ground (arith, some_did-add_dids k (d ∷ ds) m)

some_did-row :
    (depts : List ℕ) (r : Row) (m : Divisions)
    → any some_did (add_department depts r (add_direct r m)) ≡ gives depts r || any some_did m
unfolding add_department add_direct gives
some_did-row depts r m = elim (Option-cases r.did_id) [
  | inl e ↦ elim (Option-cases r.department_id) [
    | inl f ↦ rw (e, f) refl
    | inr (k, f) ↦ rw (e, f) (some_did-add_dids r.division_id depts m)
  ]
  | inr (d, e) ↦ elim (Option-cases r.department_id) [
    | inl f ↦ rw (e, f) (some_did-add_dids r.division_id (d ∷ []) m)
    | inr (k, f) ↦
        rw (e, f)
          (ground (
            arith,
            some_did-add_dids r.division_id depts (add_dids r.division_id (d ∷ []) m),
            some_did-add_dids r.division_id (d ∷ []) m,
          ))
  ]
]

pub some_did-division_to_dids :
    (depts : List ℕ) (rows : List Row) (m : Divisions)
    → any some_did (division_to_dids depts rows m) ≡ any (gives depts) rows || any some_did m
unfolding division_to_dids any
some_did-division_to_dids depts [] m = ground arith
some_did-division_to_dids depts (r ∷ rows) m = ground (
  arith,
  some_did-division_to_dids depts rows (add_department depts r (add_direct r m)),
  some_did-row depts r m,
)

select-none : (m : Divisions) → any some_did m ≡ false → select some_did m ≡ []
unfolding any select
select-none [] h = refl
select-none ((k, []) ∷ m) h = ground (arith, select-none m)
select-none ((k, d ∷ ds) ∷ m) h = cc

-- Where some pair has a DID, the combined filter is the disjunction of the clauses.
combined-any :
    (m : Divisions) (a : Assignment)
    → any some_did m ≡ true
    → combined (select some_did m) a ≡ any_clause m a
unfolding any select combined
combined-any [] a h = cc
combined-any ((k, []) ∷ m) a h = ground (arith, clause_nil k a, combined-any m a)
combined-any ((k, d ∷ ds) ∷ m) a h = ground (arith, any_clause-some_did m a)

-- The filter is the row-by-row one, as long as some row gives a DID.
pub combined-covers :
    (depts : List ℕ) (rows : List Row) (a : Assignment)
    → any (gives depts) rows ≡ true
    → combined (select some_did (division_to_dids depts rows [])) a
      ≡ any (λ r. covers depts r a) rows
unfolding any
combined-covers depts rows a h = ground (
  arith,
  combined-any (division_to_dids depts rows []) a,
  some_did-division_to_dids depts rows [],
  any_clause-division_to_dids depts rows [] a,
)

-- Where none does, the filter lets everything through.
pub combined-all :
    (depts : List ℕ) (rows : List Row) (a : Assignment)
    → any (gives depts) rows ≡ false
    → combined (select some_did (division_to_dids depts rows [])) a ≡ true
unfolding any combined
combined-all depts rows a h =
    rw
      (select-none (division_to_dids depts rows [])
        (ground (arith, some_did-division_to_dids depts rows [])))
      refl
