-- ===== src/Users/Create/Found.antt =====
-- What `_resolve_extension` and `_resolve_did` (apps/users/serializers.py) find: rows of the table and the tenant.

use unified_communication_ba.Common.{
  ℕ, ◌≡◌, ◌⊎◌, inl, inr, ◌||◌, Option, none, some, List, Text, nonempty, strip, ◌==◌, nat_eq,
  nat_beq_iff, list_eq, first-In, select, In, In-select, Bool-cases,
}
use unified_communication_ba.Models.{Extension, Did}
use unified_communication_ba.Users.Create.Defs.{Helpers}
use unified_communication_ba.Users.Create.Refs.{
  resolve_extension, extension_by_uuid, or_extension, resolve_did, did_by_uuid, or_did,
}

In-or_extension :
    (a b : Option Extension) (e : Extension)
    → or_extension a b ≡ some e
    → (a ≡ some e) ⊎ (b ≡ some e)
In-or_extension none b e h = inr h
In-or_extension (some a) b e h = inl h

In-or_did : (a b : Option Did) (d : Did) → or_did a b ≡ some d → (a ≡ some d) ⊎ (b ≡ some d)
In-or_did none b d h = inr h
In-or_did (some a) b d h = inl h

extension_by_uuid-In :
    (o : Option ℕ) (raw : Text) (es : List Extension) (e : Extension)
    → extension_by_uuid o raw es ≡ some e
    → In e es
unfolding extension_by_uuid
extension_by_uuid-In none raw es e h = absurd cc
extension_by_uuid-In (some uuid) raw es e h =
    (first-In (λ (e : Extension). e.id == uuid || e.freeswitch_object_id == raw) e es h).0

did_by_uuid-In :
    (o : Option ℕ) (raw : Text) (ds : List Did) (d : Did) → did_by_uuid o raw ds ≡ some d → In d ds
unfolding did_by_uuid
did_by_uuid-In none raw ds d h = absurd cc
did_by_uuid-In (some uuid) raw ds d h =
    (first-In (λ (d : Did). d.id == uuid || d.freeswitch_object_id == raw) d ds h).0

pub resolve_extension-In :
    (w : Helpers) (ref : Text) (tenant : ℕ) (es : List Extension) (e : Extension)
    → resolve_extension w ref tenant es ≡ some e
    → In e es × (e.tenant ≡ tenant)
unfolding resolve_extension
resolve_extension-In w ref tenant es e h =
    let of_tenant = λ (e : Extension). e.tenant == tenant in
    let own = select of_tenant es in
    let found : In e own → In e es × (e.tenant ≡ tenant) =
      λ i. let (j, q) = (In-select of_tenant e es).0 i in (j, (nat_beq_iff e.tenant tenant).0 q) in
    elim (Bool-cases (nonempty ref)) [
      | inr n ↦ let q = rw (n, resolve_extension) at h in absurd cc
      | inl n ↦ elim (In-or_extension _ _ e (rw (n, resolve_extension) at h)) [
        | inl q ↦ found (extension_by_uuid-In (w.parse_uuid (strip ref)) (strip ref) own e q)
        | inr q ↦ found ((first-In (λ (e : Extension). e.extension_number == strip ref) e own q).0)
      ]
    ]

pub resolve_did-In :
    (w : Helpers) (ref : Text) (tenant : ℕ) (ds : List Did) (d : Did)
    → resolve_did w ref tenant ds ≡ some d
    → In d ds × (d.tenant ≡ tenant)
unfolding resolve_did
resolve_did-In w ref tenant ds d h =
    let of_tenant = λ (d : Did). d.tenant == tenant in
    let own = select of_tenant ds in
    let found : In d own → In d ds × (d.tenant ≡ tenant) =
      λ i. let (j, q) = (In-select of_tenant d ds).0 i in (j, (nat_beq_iff d.tenant tenant).0 q) in
    elim (Bool-cases (nonempty ref)) [
      | inr n ↦ let q = rw (n, resolve_did) at h in absurd cc
      | inl n ↦ elim (In-or_did _ _ d (rw (n, resolve_did) at h)) [
        | inl q ↦ found (did_by_uuid-In (w.parse_uuid (strip ref)) (strip ref) own d q)
        | inr q ↦ found ((first-In (λ (d : Did). d.number == strip ref) d own q).0)
      ]
    ]
