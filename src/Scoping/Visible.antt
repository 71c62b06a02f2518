-- ===== src/Scoping/Visible.antt =====
-- `resolve_tl_extensions`: whose extensions a team lead sees.
use unified_communication_ba.Common.{
  ℕ, Bool, true, ◌≡◌, ◌≢◌, refl, ap, inl, inr, some, List, [], ◌∷◌, ◌++◌, any, select, arith, In,
  nonempty, any-In, In-append, ◌∙◌,
}
use mathlib.Core.Path.{fun_ext}
use unified_communication_ba.Models.{Assignment, User}
use unified_communication_ba.Scoping.Grants.{Tables, Row, tl_entries, direct_did_ids, dept_did_ids}
use unified_communication_ba.Scoping.Rows.{In-present, In-dept_did_ids}
use unified_communication_ba.Scoping.Resolve.{
  Divisions, callers, division_to_dids, some_did, combined, collect, extensions_of_rows, scoped,
  resolve_tl_extensions, resolve_tl_did_ids,
}
use unified_communication_ba.Scoping.Callers.{
  covers, gives, combined-covers, some_did-division_to_dids,
}

select-ext :
    (p q : Assignment → Bool) (xs : List Assignment)
    → ((a : Assignment) → p a ≡ q a)
    → select p xs ≡ select q xs
select-ext p q xs h = ap (λ (f : Assignment → Bool). select f xs) (fun_ext h)

select-all : (xs : List Assignment) → select (λ _. true) xs ≡ xs
unfolding select
select-all [] = refl
select-all (a ∷ xs) = ap (λ (l : List Assignment). a ∷ l) (select-all xs)

-- With an empty filter on one side and no assignment lost on the other, the cases of `callers` agree.
callers-some_did :
    (t : Tables) (m : Divisions)
    → any some_did m ≡ true
    → callers t m ≡ collect t.extensions (select (combined (select some_did m)) t.assignments)
unfolding callers any
callers-some_did t [] h = cc
callers-some_did t (c ∷ cs) h = refl

pub callers-none :
    (t : Tables) (m : Divisions)
    → m ≢ []
    → ((a : Assignment) → combined (select some_did m) a ≡ true)
    → callers t m ≡ collect t.extensions t.assignments
unfolding callers
callers-none t [] ne h = absurd (ne refl)
callers-none t (c ∷ cs) ne h = ap (collect t.extensions) (
    select-ext (combined (select some_did (c ∷ cs))) (λ _. true) t.assignments h
    ∙ select-all t.assignments)

module _ (depts : List ℕ) where
  gives-direct :
      (d : ℕ) (rows : List Row) → In d (direct_did_ids rows) → any (gives depts) rows ≡ true
  unfolding direct_did_ids gives
  gives-direct d rows i =
      let (r, j, e) = In-present (λ (r : Row). r.did_id) d rows i in
      any-In (gives depts) r rows j (ground arith)

  gives-department :
      (k : ℕ) (r : Row) (rows : List Row)
      → In r rows
      → r.department_id ≡ some k
      → nonempty depts ≡ true
      → any (gives depts) rows ≡ true
  unfolding gives
  gives-department k r rows i e n = any-In (gives depts) r rows i (ground arith)

nonempty-In : (d : ℕ) (ds : List ℕ) → In d ds → nonempty ds ≡ true
nonempty-In d [] i = absurd i
nonempty-In d (x ∷ ds) i = refl

scoped-some :
    {A : Type 0} (rows : List Row) (v w : A) → scoped rows v ≡ some w → (v ≡ w) × (rows ≢ [])
unfolding scoped
scoped-some [] v w h = cc
scoped-some (r ∷ rows) v w h = (cc, λ e. cc)

pub scoped-nonempty : {A : Type 0} (rows : List Row) (v : A) → rows ≢ [] → scoped rows v ≡ some v
unfolding scoped
scoped-nonempty [] v ne = absurd (ne refl)
scoped-nonempty (r ∷ rows) v ne = refl

module _ (t : Tables) (u : User) where
  abbrev pub rows : List Row
  rows = tl_entries t u.id

  abbrev pub depts : List ℕ
  depts = dept_did_ids t u.tenant rows

  gives-resolved : (d : ℕ) → In d (direct_did_ids rows ++ depts) → any (gives depts) rows ≡ true
  gives-resolved d i = elim ((In-append d (direct_did_ids rows) depts).0 i) [
    | inl j ↦ gives-direct depts d rows j
    | inr j ↦
        let m = In-dept_did_ids t u.tenant rows d j in
        gives-department depts m.department m.row rows m.listed m.named (nonempty-In d depts j)
  ]

  pub resolved-some :
      (ids : List ℕ)
      → resolve_tl_did_ids t u ≡ some ids
      → (direct_did_ids rows ++ depts ≡ ids) × (rows ≢ [])
  unfolding resolve_tl_did_ids
  resolved-some ids h = scoped-some rows (direct_did_ids rows ++ depts) ids h

  -- When the grants of a user resolve to at least one DID, the extensions are those of the callers with
  -- an assignment that some row of the grants covers: by the row's DID, or, for a row with a department,
  -- by any DID that the departments of all rows expand to; under the row's division, or any if it has
  -- none.
  pub resolve_tl_extensions-covers :
      (d : ℕ) (ds : List ℕ)
      → resolve_tl_did_ids t u ≡ some (d ∷ ds)
      → resolve_tl_extensions t u
        ≡ some (collect t.extensions (select (λ a. any (λ r. covers depts r a) rows) t.assignments))
  unfolding resolve_tl_extensions extensions_of_rows
  resolve_tl_extensions-covers d ds h =
      let (e, ne) = resolved-some (d ∷ ds) h in
      let g = gives-resolved d (rw e (inl refl)) in
      scoped-nonempty rows (extensions_of_rows t u.tenant rows) ne
      ∙ ap some (
          callers-some_did t (division_to_dids depts rows [])
            (ground (arith, some_did-division_to_dids depts rows []))
          ∙ ap (collect t.extensions) (
              select-ext (combined (select some_did (division_to_dids depts rows [])))
                (λ a. any (λ r. covers depts r a) rows) t.assignments
                (λ a. combined-covers depts rows a g)))
