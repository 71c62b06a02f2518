-- ===== src/Users/Create/Refs.antt =====
-- The references of a form: `_resolve_tenant`, `_resolve_extension`, `_resolve_did`, and the rows of
-- `_validate_assignments`.
use unified_communication_ba.Common.{
  ℕ, Bool, not, ◌||◌, Option, none, some, List, [], ◌∷◌, Text, codes, nonempty, strip, ◌==◌, nat_eq,
  list_eq, if◌then◌else◌, first, select, sort_by, contains,
}
use unified_communication_ba.Models.{Tenant, Extension, Did}
use unified_communication_ba.Access.{tenant_by_code, or_other}
use unified_communication_ba.Users.Create.Defs.{
  Outcome, ok, invalid, next_of, DidRow, ResolvedRow, People, Helpers,
}

unfoldable pub tenant_by_uuid : Helpers → Option ℕ → List Tenant → Option Tenant
unfolding first sort_by
tenant_by_uuid w none ts = none
tenant_by_uuid w (some uuid) ts =
    first (λ (t : Tenant). t.id == uuid || t.freeswitch_tenant_uuid == uuid)
      (sort_by (λ (a b : Tenant). not (w.name_before b.tenant_name a.tenant_name)) ts)

-- `_resolve_tenant`
unfoldable pub resolve_tenant : Helpers → Text → List Tenant → Option Tenant
unfolding strip tenant_by_uuid tenant_by_code
resolve_tenant w ref ts =
    if nonempty ref
    then or_other (tenant_by_uuid w (w.parse_uuid (strip ref)) ts)
        (tenant_by_code w.name_before (strip ref) ts)
    else none

abbrev pub or_extension : Option Extension → Option Extension → Option Extension
or_extension none b = b
or_extension (some a) b = some a

-- The first of the extensions with the UUID as its id, or the text as its object id.
unfoldable pub extension_by_uuid : Option ℕ → Text → List Extension → Option Extension
unfolding first
extension_by_uuid none raw es = none
extension_by_uuid (some uuid) raw es =
    first (λ (e : Extension). e.id == uuid || e.freeswitch_object_id == raw) es

-- `_resolve_extension`
unfoldable pub resolve_extension : Helpers → Text → ℕ → List Extension → Option Extension
unfolding strip select extension_by_uuid first
resolve_extension w ref tenant es =
    let own = select (λ (e : Extension). e.tenant == tenant) es in
    if nonempty ref
    then or_extension (extension_by_uuid (w.parse_uuid (strip ref)) (strip ref) own)
        (first (λ (e : Extension). e.extension_number == strip ref) own)
    else none

abbrev pub or_did : Option Did → Option Did → Option Did
or_did none b = b
or_did (some a) b = some a

unfoldable pub did_by_uuid : Option ℕ → Text → List Did → Option Did
unfolding first
did_by_uuid none raw ds = none
did_by_uuid (some uuid) raw ds =
    first (λ (d : Did). d.id == uuid || d.freeswitch_object_id == raw) ds

-- `_resolve_did`
unfoldable pub resolve_did : Helpers → Text → ℕ → List Did → Option Did
unfolding strip select did_by_uuid first
resolve_did w ref tenant ds =
    let own = select (λ (d : Did). d.tenant == tenant) ds in
    if nonempty ref
    then or_did (did_by_uuid (w.parse_uuid (strip ref)) (strip ref) own)
        (first (λ (d : Did). d.number == strip ref) own)
    else none

-- `ref in (None, "", "null")`
unfoldable pub is_blank : Text → Bool
is_blank ref = not (nonempty ref) || ref == codes "null"

abbrev pub stored_id : List ℕ → Option ℕ → Outcome (Option ℕ)
stored_id ids none = invalid (codes "non_field_errors")
stored_id ids (some id) =
    if contains ids id then ok (some id) else invalid (codes "did_assignments")

-- The id of a division or a department; a text that is no UUID is an error of the whole form.
unfoldable pub resolve_id : Helpers → Text → List ℕ → Outcome (Option ℕ)
unfolding is_blank contains
resolve_id w ref ids = if is_blank ref then ok none else stored_id ids (w.parse_uuid ref)

unfoldable pub resolve_row : Helpers → DidRow → People → Outcome ResolvedRow
unfolding resolve_id
resolve_row w r p =
    if nonempty r.did_ref
    then next_of (resolve_id w r.division_ref p.divisions) (λ division.
      next_of (resolve_id w r.department_ref p.departments) (λ department.
        ok (record { did_ref = r.did_ref; division = division; department = department })))
    else invalid (codes "did_assignments")

unfoldable pub resolve_rows : Helpers → List DidRow → People → Outcome (List ResolvedRow)
unfolding resolve_row
resolve_rows w [] p = ok []
resolve_rows w (r ∷ rs) p =
    next_of (resolve_row w r p) (λ row. next_of (resolve_rows w rs p) (λ rows. ok (row ∷ rows)))
