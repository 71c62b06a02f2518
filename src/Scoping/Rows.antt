-- ===== src/Scoping/Rows.antt =====
-- The rows of `_tl_entries` and the columns read from them, as facts about the tables.
use unified_communication_ba.Common.{
  ℕ, Bool, ◌≡◌, refl, sym, ◌↔◌, ◌⊎◌, inl, inr, Option, none, some, List, [], ◌∷◌, map, ◌==◌, nat_eq,
  select, arith, In, In-append, In-select, In-map, map-In, nat_beq_iff, contains_iff, true,
  Option-cases, ◌&&◌,
}
use unified_communication_ba.Models.{Did, AccessGroupEntry, TlGroupAccess}
use unified_communication_ba.Scoping.Grants.{
  Tables, Row, null_row, row_of, or_null_row, grant_rows, join_rows, tl_entries, present, cons_some,
  explicit_dept_ids, dept_did_ids, in_departments, in_tenant,
}

-- The row of an entry in a group that the user is granted.
pub record EntryRow (t : Tables) (user : ℕ) (r : Row) : Type 0 where
  pub grant : TlGroupAccess
  pub entry : AccessGroupEntry
  pub granted : In grant t.grants
  pub to_user : grant.user ≡ user
  pub listed : In entry t.entries
  pub grouped : entry.group ≡ grant.group
  pub is_row : r ≡ row_of t.dids entry

In-or_null_row : (r : Row) (rs : List Row) → In r (or_null_row rs) → In r rs ⊎ (r ≡ null_row)
unfolding or_null_row
In-or_null_row r [] (inl e) = inr e
In-or_null_row r [] (inr i) = elim i [ ]
In-or_null_row r (x ∷ rs) i = inl i

or_null_row-In : (r : Row) (rs : List Row) → In r rs → In r (or_null_row rs)
unfolding or_null_row
or_null_row-In r [] i = elim i [ ]
or_null_row-In r (x ∷ rs) i = i

abbrev in_group : TlGroupAccess → AccessGroupEntry → Bool
in_group g = λ (e : AccessGroupEntry). e.group == g.group

join_rows-EntryRow :
    (t : Tables) (user : ℕ) (r : Row) (gs : List TlGroupAccess)
    → ((g : TlGroupAccess) → In g gs → In g t.grants × (g.user ≡ user))
    → In r (join_rows t gs)
    → EntryRow t user r ⊎ (r ≡ null_row)
unfolding join_rows grant_rows
join_rows-EntryRow t user r [] ok i = elim i [ ]
join_rows-EntryRow t user r (g ∷ gs) ok i =
    elim ((In-append r (grant_rows t g) (join_rows t gs)).0 i) [
      | inl h ↦ elim (In-or_null_row r (map (row_of t.dids) (select (in_group g) t.entries)) h) [
        | inl j ↦
            let (e, k, q) = In-map (row_of t.dids) r (select (in_group g) t.entries) j in
            let (l, m) = (In-select (in_group g) e t.entries).0 k in
            inl (record {
              grant = g;
              entry = e;
              granted = (ok g (inl refl)).0;
              to_user = (ok g (inl refl)).1;
              listed = l;
              grouped = (nat_beq_iff e.group g.group).0 m;
              is_row = q;
            })
        | inr q ↦ inr q
      ]
      | inr h ↦ join_rows-EntryRow t user r gs (λ x j. ok x (inr j)) h
    ]

-- A row is that of a granted entry, or the null row of an empty group.
pub tl_entries-EntryRow :
    (t : Tables) (user : ℕ) (r : Row)
    → In r (tl_entries t user)
    → EntryRow t user r ⊎ (r ≡ null_row)
unfolding tl_entries
tl_entries-EntryRow t user r i =
    join_rows-EntryRow t user r (select (λ (g : TlGroupAccess). g.user == user) t.grants)
      (λ g j.
        let (k, m) = (In-select (λ (g : TlGroupAccess). g.user == user) g t.grants).0 j in
        (k, (nat_beq_iff g.user user).0 m))
      i

join_rows-In :
    (t : Tables) (g : TlGroupAccess) (r : Row) (gs : List TlGroupAccess)
    → In g gs
    → In r (grant_rows t g)
    → In r (join_rows t gs)
unfolding join_rows
join_rows-In t g r [] j i = elim j [ ]
join_rows-In t g r (x ∷ gs) (inl e) i =
    (In-append r (grant_rows t x) (join_rows t gs)).1 (inl (rw e at i))
join_rows-In t g r (x ∷ gs) (inr j) i =
    (In-append r (grant_rows t x) (join_rows t gs)).1 (inr (join_rows-In t g r gs j i))

-- Every granted entry has its row.
pub EntryRow-In : (t : Tables) (user : ℕ) (r : Row) → EntryRow t user r → In r (tl_entries t user)
unfolding tl_entries grant_rows
EntryRow-In t user r h =
    join_rows-In t h.grant r (select (λ (g : TlGroupAccess). g.user == user) t.grants)
      ((In-select (λ (g : TlGroupAccess). g.user == user) h.grant t.grants).1
        (h.granted, (nat_beq_iff h.grant.user user).1 h.to_user))
      (or_null_row-In r (map (row_of t.dids) (select (in_group h.grant) t.entries)) (
        rw h.is_row (
          map-In (row_of t.dids) h.entry (select (in_group h.grant) t.entries) (
            (In-select (in_group h.grant) h.entry t.entries).1
              (h.listed, (nat_beq_iff h.entry.group h.grant.group).1 h.grouped)))))

In-cons_some :
    (o : Option ℕ) (a : ℕ) (rest : List ℕ) → In a (cons_some o rest) ↔ ((o ≡ some a) ⊎ In a rest)
In-cons_some none a rest = ground arith
In-cons_some (some b) a rest = ground arith

-- A value is present in a column when some row holds it.
pub In-present :
    {A : Type 0} (f : A → Option ℕ) (a : ℕ) (xs : List A)
    → In a (present f xs)
    → (x : A) × In x xs × (f x ≡ some a)
unfolding present
In-present f a [] i = absurd i
In-present f a (x ∷ xs) i = elim ((In-cons_some (f x) a (present f xs)).0 i) [
  | inl e ↦ (x, inl refl, e)
  | inr j ↦ let (y, k, q) = In-present f a xs j in (y, inr k, q)
]

pub present-In :
    {A : Type 0} (f : A → Option ℕ) (a : ℕ) (x : A) (xs : List A)
    → In x xs
    → f x ≡ some a
    → In a (present f xs)
unfolding present
present-In f a x [] i h = absurd i
present-In f a x (y ∷ xs) (inl e) h = (In-cons_some (f y) a (present f xs)).1 (inl (rw e at h))
present-In f a x (y ∷ xs) (inr i) h =
    (In-cons_some (f y) a (present f xs)).1 (inr (present-In f a x xs i h))

-- The DIDs reached through a department: those of the table, in a department that a row names, and in
-- the user's tenant.
pub record DepartmentDid (t : Tables) (tenant : Option ℕ) (rows : List Row) (d : ℕ) : Type 0 where
  pub did : Did
  pub department : ℕ
  pub row : Row
  pub stored : In did t.dids
  pub is_id : did.id ≡ d
  pub placed : did.department ≡ some department
  pub listed : In row rows
  pub named : row.department_id ≡ some department
  pub own : in_tenant tenant did ≡ true

in_departments_iff :
    (depts : List ℕ) (d : Did)
    → in_departments depts d ≡ true
    → (k : ℕ) × (d.department ≡ some k) × In k depts
unfolding in_departments
in_departments_iff depts d h = elim (Option-cases d.department) [
  | inl e ↦ absurd (ground arith)
  | inr (k, e) ↦ (k, e, (contains_iff depts k).0 (ground arith))
]

in_departments_of :
    (depts : List ℕ) (d : Did) (k : ℕ)
    → d.department ≡ some k
    → In k depts
    → in_departments depts d ≡ true
unfolding in_departments
in_departments_of depts d k e i = ground (arith, (contains_iff depts k).1 i)

pub In-dept_did_ids :
    (t : Tables) (tenant : Option ℕ) (rows : List Row) (d : ℕ)
    → In d (dept_did_ids t tenant rows)
    → DepartmentDid t tenant rows d
unfolding dept_did_ids
In-dept_did_ids t tenant rows d i =
    let keep = λ (x : Did). in_departments (explicit_dept_ids rows) x && in_tenant tenant x in
    let (x, j, e) = In-map (λ (x : Did). x.id) d (select keep t.dids) i in
    let (k, m) = (In-select keep x t.dids).0 j in
    let (dep, p, q) = in_departments_iff (explicit_dept_ids rows) x (ground arith) in
    let (r, l, n) = In-present (λ (r : Row). r.department_id) dep rows q in
    record {
      did = x;
      department = dep;
      row = r;
      stored = k;
      is_id = sym e;
      placed = p;
      listed = l;
      named = n;
      own = ground arith;
    }

pub dept_did_ids-In :
    (t : Tables) (tenant : Option ℕ) (rows : List Row) (d : ℕ)
    → DepartmentDid t tenant rows d
    → In d (dept_did_ids t tenant rows)
unfolding dept_did_ids
dept_did_ids-In t tenant rows d h =
    let keep = λ (x : Did). in_departments (explicit_dept_ids rows) x && in_tenant tenant x in
    let dep =
      in_departments_of (explicit_dept_ids rows) h.did h.department h.placed
        (present-In (λ (r : Row). r.department_id) h.department h.row rows h.listed h.named) in
    rw (← h.is_id) (
      map-In (λ (x : Did). x.id) h.did (select keep t.dids)
        ((In-select keep h.did t.dids).1 (h.stored, rw (dep, h.own))))
