-- ===== src/Scoping/DidIds.antt =====
-- `resolve_tl_did_ids`: the resolved set against the grants in the tables.
use unified_communication_ba.Common.{
  ℕ, true, ◌≡◌, refl, ◌↔◌, inl, inr, some, List, [], ◌∷◌, ◌++◌, In, In-append,
}
use unified_communication_ba.Models.{Did, AccessGroupEntry, TlGroupAccess, User}
use unified_communication_ba.Scoping.Grants.{
  Tables, Row, row_of, tl_entries, direct_did_ids, dept_did_ids, in_tenant,
}
use unified_communication_ba.Scoping.Rows.{
  tl_entries-EntryRow, EntryRow-In, In-present, present-In, In-dept_did_ids, dept_did_ids-In,
}
use unified_communication_ba.Scoping.Resolve.{scoped, resolve_tl_did_ids}

-- What the grants of a user say of a DID: an entry of a granted group names it, or names the
-- department that it stands under, in the tenant of the user if the user has one.
pub data GrantedDid (t : Tables) (u : User) (d : ℕ) : Type 0 where
  by_number :
      (g : TlGroupAccess) (e : AccessGroupEntry)
      → In g t.grants
      → g.user ≡ u.id
      → In e t.entries
      → e.group ≡ g.group
      → e.did ≡ some d
      → GrantedDid t u d
  by_department :
      (g : TlGroupAccess) (e : AccessGroupEntry) (x : Did) (k : ℕ)
      → In g t.grants
      → g.user ≡ u.id
      → In e t.entries
      → e.group ≡ g.group
      → e.department ≡ some k
      → In x t.dids
      → x.department ≡ some k
      → x.id ≡ d
      → in_tenant u.tenant x ≡ true
      → GrantedDid t u d

module _ (t : Tables) (u : User) (d : ℕ) where
  direct-GrantedDid : In d (direct_did_ids (tl_entries t u.id)) → GrantedDid t u d
  unfolding direct_did_ids row_of
  direct-GrantedDid i =
      let (r, j, e) = In-present (λ (r : Row). r.did_id) d (tl_entries t u.id) i in
      elim (tl_entries-EntryRow t u.id r j) [
        | inl h ↦
            by_number h.grant h.entry h.granted h.to_user h.listed h.grouped (cc (e, h.is_row))
        | inr n ↦ cc (e, n)
      ]

  department-GrantedDid : In d (dept_did_ids t u.tenant (tl_entries t u.id)) → GrantedDid t u d
  unfolding row_of
  department-GrantedDid i =
      let m = In-dept_did_ids t u.tenant (tl_entries t u.id) d i in
      elim (tl_entries-EntryRow t u.id m.row m.listed) [
        | inl h ↦
            by_department h.grant h.entry m.did m.department h.granted h.to_user h.listed h.grouped
              (cc (m.named, h.is_row)) m.stored m.placed m.is_id m.own
        | inr n ↦ cc (m.named, n)
      ]

  entry_row :
      (g : TlGroupAccess) (e : AccessGroupEntry)
      → In g t.grants
      → g.user ≡ u.id
      → In e t.entries
      → e.group ≡ g.group
      → In (row_of t.dids e) (tl_entries t u.id)
  entry_row g e a b c h = EntryRow-In t u.id (row_of t.dids e) (record {
    grant = g;
    entry = e;
    granted = a;
    to_user = b;
    listed = c;
    grouped = h;
    is_row = refl;
  })

  GrantedDid-In :
      GrantedDid t u d
      → In d (direct_did_ids (tl_entries t u.id) ++ dept_did_ids t u.tenant (tl_entries t u.id))
  unfolding direct_did_ids row_of
  GrantedDid-In (by_number g e a b c h n) =
      (In-append d (direct_did_ids (tl_entries t u.id))
          (dept_did_ids t u.tenant (tl_entries t u.id))).1
        (inl (
          present-In (λ (r : Row). r.did_id) d (row_of t.dids e) (tl_entries t u.id)
            (entry_row g e a b c h) n))
  GrantedDid-In (by_department g e x k a b c h n s p q o) =
      (In-append d (direct_did_ids (tl_entries t u.id))
          (dept_did_ids t u.tenant (tl_entries t u.id))).1
        (inr (
          dept_did_ids-In t u.tenant (tl_entries t u.id) d (record {
            did = x;
            department = k;
            row = row_of t.dids e;
            stored = s;
            is_id = q;
            placed = p;
            listed = entry_row g e a b c h;
            named = n;
            own = o;
          })))

scoped-some : {A : Type 0} (rows : List Row) (v w : A) → scoped rows v ≡ some w → v ≡ w
unfolding scoped
scoped-some [] v w h = cc
scoped-some (r ∷ rs) v w h = cc

-- When the grants of a user resolve to a set of DIDs, a DID is in that set exactly when an entry of a
-- granted group names it, or names its department and the DID is in the user's tenant (any tenant, for a
-- user without one).
pub resolve_tl_did_ids-GrantedDid :
    (t : Tables) (u : User) (ids : List ℕ) (d : ℕ)
    → resolve_tl_did_ids t u ≡ some ids
    → In d ids ↔ GrantedDid t u d
unfolding resolve_tl_did_ids
resolve_tl_did_ids-GrantedDid t u ids d h =
    let e =
      scoped-some (tl_entries t u.id)
        (direct_did_ids (tl_entries t u.id) ++ dept_did_ids t u.tenant (tl_entries t u.id)) ids h in
    rw (← e) (
      λ i.
          elim ((In-append d (direct_did_ids (tl_entries t u.id))
              (dept_did_ids t u.tenant (tl_entries t u.id))).0
            i) [ inl j ↦ direct-GrantedDid t u d j | inr j ↦ department-GrantedDid t u d j ],
      GrantedDid-In t u d,
    )
