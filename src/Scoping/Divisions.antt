-- ===== src/Scoping/Divisions.antt =====
-- `resolve_tl_division_ids`: the set of divisions, and when there is none.
use unified_communication_ba.Common.{
  ℕ, ◌≡◌, ◌≢◌, ◌↔◌, inl, inr, none, some, List, [], ◌∷◌, arith, In, Option-cases, select, In-append,
  refl, ◌==◌, nat_eq, In-select, nat_beq_iff,
}
use unified_communication_ba.Models.{User, AccessGroupEntry, TlGroupAccess}
use unified_communication_ba.Scoping.Grants.{
  Tables, Row, null_row, or_null_row, grant_rows, join_rows, tl_entries,
}
use unified_communication_ba.Scoping.Resolve.{division_ids, or_no_grants, resolve_tl_division_ids}

-- Every row has a division, and the list is that of the rows' divisions.
record Named (rows : List Row) (ks : List ℕ) : Type 0 where
  to_row : (k : ℕ) → In k ks → (r : Row) × In r rows × (r.division_id ≡ some k)
  of_row : (r : Row) → In r rows → (k : ℕ) × (r.division_id ≡ some k) × In k ks

Named-cons :
    (r : Row) (rows : List Row) (k : ℕ) (ks : List ℕ)
    → r.division_id ≡ some k
    → Named rows ks
    → Named (r ∷ rows) (k ∷ ks)
Named-cons r rows k ks e h = record {
  to_row = λ j. elim [
    | inl q ↦ (r, inl refl, cc (q, e))
    | inr i ↦ let (x, l, n) = h.to_row j i in (x, inr l, n)
  ];
  of_row = λ x. elim [
    | inl q ↦ (k, cc (q, e), inl refl)
    | inr i ↦ let (j, n, l) = h.of_row x i in (j, n, inr l)
  ];
}

division_ids-Named : (rows : List Row) (ks : List ℕ) → division_ids rows ≡ some ks → Named rows ks
unfolding division_ids
division_ids-Named [] ks h = record {
  to_row = λ k i. absurd (unnamed ks k h i);
  of_row = λ r i. absurd i;
}
  where
    unnamed : (ks : List ℕ) (k : ℕ) → some [] ≡ some ks → In k ks → ⊥
    unnamed [] k h i = i
    unnamed (x ∷ ks) k h i = cc
division_ids-Named (r ∷ rows) ks h = elim (Option-cases r.division_id) [
  | inl e ↦ absurd (ground arith)
  | inr (k, e) ↦ elim (Option-cases (division_ids rows)) [
    | inl f ↦ absurd (ground arith)
    | inr (js, f) ↦
        let q : ks ≡ k ∷ js = ground arith in
        rw q (Named-cons r rows k js e (division_ids-Named rows js f))
  ]
]

division_ids-none :
    (r : Row) (rows : List Row) → In r rows → r.division_id ≡ none → division_ids rows ≡ none
unfolding division_ids
division_ids-none r [] i e = absurd i
division_ids-none r (x ∷ rows) (inl q) e = ground arith
division_ids-none r (x ∷ rows) (inr i) e = ground (arith, division_ids-none r rows i e)

-- When the divisions of a user are restricted, every row of the grants names a division, and the set
-- holds exactly the divisions that the rows name.
pub resolve_tl_division_ids-Named :
    (t : Tables) (u : User) (ks : List ℕ)
    → resolve_tl_division_ids t u ≡ some ks
    → ((k : ℕ) → In k ks ↔ ((r : Row) × In r (tl_entries t u.id) × (r.division_id ≡ some k)))
      × ((r : Row) → In r (tl_entries t u.id) → (k : ℕ) × (r.division_id ≡ some k))
unfolding resolve_tl_division_ids
resolve_tl_division_ids-Named t u ks h =
    let n = division_ids-Named (tl_entries t u.id) ks (granted (tl_entries t u.id) h) in
    (
      λ k. (n.to_row k, λ (r, i, e). named_In n k r i e),
      λ r i. let (k, e, _) = n.of_row r i in (k, e),
    )
  where
    granted : (rows : List Row) → or_no_grants rows ≡ some ks → division_ids rows ≡ some ks
    granted [] e = cc
    granted (r ∷ rows) e = e

    named_In :
        Named (tl_entries t u.id) ks
        → (k : ℕ) (r : Row) → In r (tl_entries t u.id)
        → r.division_id ≡ some k
        → In k ks
    named_In n k r i e = let (j, f, l) = n.of_row r i in let q : k ≡ j = cc (e, f) in rw q l

select-none :
    (g : TlGroupAccess) (es : List AccessGroupEntry)
    → ((e : AccessGroupEntry) → In e es → e.group ≢ g.group)
    → select (λ (e : AccessGroupEntry). e.group == g.group) es ≡ []
unfolding select
select-none g [] ne = refl
select-none g (e ∷ es) ne = ground (arith, ne e (inl refl), select-none g es (λ x i. ne x (inr i)))

join_rows-null :
    (t : Tables) (g : TlGroupAccess) (gs : List TlGroupAccess)
    → In g gs
    → grant_rows t g ≡ null_row ∷ []
    → In null_row (join_rows t gs)
unfolding join_rows
join_rows-null t g [] i e = absurd i
join_rows-null t g (x ∷ gs) (inl q) e =
    (In-append null_row (grant_rows t x) (join_rows t gs)).1 (inl (rw (← q, e) (inl refl)))
join_rows-null t g (x ∷ gs) (inr i) e =
    (In-append null_row (grant_rows t x) (join_rows t gs)).1 (inr (join_rows-null t g gs i e))

or_no_grants-none : (rows : List Row) → division_ids rows ≡ none → or_no_grants rows ≡ none
unfolding or_no_grants
or_no_grants-none [] h = refl
or_no_grants-none (r ∷ rows) h = h

-- A user who is granted a group without entries is not restricted in the divisions, whatever the other
-- grants name.
pub resolve_tl_division_ids-empty_group :
    (t : Tables) (u : User) (g : TlGroupAccess)
    → In g t.grants
    → g.user ≡ u.id
    → ((e : AccessGroupEntry) → In e t.entries → e.group ≢ g.group)
    → resolve_tl_division_ids t u ≡ none
unfolding resolve_tl_division_ids tl_entries
resolve_tl_division_ids-empty_group t u g i e ne =
    let mine = λ (x : TlGroupAccess). x.user == u.id in
    let empty : grant_rows t g ≡ null_row ∷ [] =
      unfold grant_rows or_null_row in rw (select-none g t.entries ne) refl in
    let j =
      join_rows-null t g (select mine t.grants)
        ((In-select mine g t.grants).1 (i, (nat_beq_iff g.user u.id).1 e)) empty in
    or_no_grants-none (join_rows t (select mine t.grants))
      (division_ids-none null_row (join_rows t (select mine t.grants)) j refl)
