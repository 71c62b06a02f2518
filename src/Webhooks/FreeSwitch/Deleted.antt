-- ===== src/Webhooks/FreeSwitch/Deleted.antt =====
-- `extension.deleted` of the FreeSWITCH webhook (apps/webhooks/views.py): which rows it removes.
use mathlib.Core.Path.{subst}
use mathlib.Core.Option.{some-injective}
use unified_communication_ba.Common.{
  ◌≡◌, ◌↔◌, In-select, nat_eq, In, refl, sym, ap, ◌∙◌, inl, inr, Bool, true, false, not, Option,
  none, some, List, Text, nonempty, arith, Option-cases, Bool-cases,
}
use unified_communication_ba.Json.{Json, null, bool, int, float, str, arr, obj, Fields}
use unified_communication_ba.Models.{Tenant, Extension}
use unified_communication_ba.Webhooks.FreeSwitch.State.{Db, Services}
use unified_communication_ba.Webhooks.FreeSwitch.Payload.{
  tenant_id_of, tenant_code_of, event_type_of, object_id_of,
}
use unified_communication_ba.Webhooks.FreeSwitch.Tenants.{
  find_tenant, found_or_new, resolve_or_create_tenant,
}
use unified_communication_ba.Webhooks.FreeSwitch.Extensions.{has_object, extension_deleted}
use unified_communication_ba.Webhooks.FreeSwitch.Post.{
  for_tenant, extension_deletion, process, Response, write_log, post_object, post, kind_of,
}
use unified_communication_ba.Webhooks.FreeSwitch.Tables.{and_then-some}

find_or_nothing :
    (w : Services) (p : Fields) (db : Db) (r : Option Tenant × Db)
    → resolve_or_create_tenant w p false db ≡ some r
    → r.1 ≡ db
unfolding resolve_or_create_tenant found_or_new
find_or_nothing w p db r = elim (Bool-cases (nonempty (tenant_id_of w p))) [
  | inl e ↦ elim (Option-cases (w.parse_uuid (tenant_id_of w p))) [
    | inl f ↦ rw e (rw f (λ h. cc))
    | inr (uuid, f) ↦ elim (Option-cases (find_tenant w uuid (tenant_code_of w p) db.tenants)) [
      | inl g ↦
          rw e
            (rw f (rw g (λ h. ap (λ (r : Option Tenant × Db). r.1) (sym (some-injective _ _ h)))))
      | inr (t, g) ↦
          rw e
            (rw f (rw g (λ h. ap (λ (r : Option Tenant × Db). r.1) (sym (some-injective _ _ h)))))
    ]
  ]
  | inr e ↦ rw e (λ h. ap (λ (r : Option Tenant × Db). r.1) (sym (some-injective _ _ h)))
]

-- What stays of the extensions, for the tenant of the event.
abbrev pub stays : Option Tenant → Text → Extension → Bool
stays none o e = true
stays (some t) o e = not (has_object t o e)

deleted_rows :
    (o : Option Tenant) (object_id : Text) (d d' : Db)
    → for_tenant (λ t d. some (extension_deleted t object_id d)) (o, d) ≡ some d'
    → (d'.tenants ≡ d.tenants)
      × (d'.dids ≡ d.dids)
      × ((e : Extension) → In e d'.extensions ↔ (In e d.extensions × (stays o object_id e ≡ true)))
unfolding for_tenant extension_deleted
deleted_rows none object_id d d' h =
    subst
      (λ (d' : Db).
        (d'.tenants ≡ d.tenants)
        × (d'.dids ≡ d.dids)
        × ((e : Extension)
            → In e d'.extensions ↔ (In e d.extensions × (stays none object_id e ≡ true))))
      (some-injective _ _ h) (refl, refl, λ e. ground arith)
deleted_rows (some t) object_id d d' h =
    subst
      (λ (d' : Db).
        (d'.tenants ≡ d.tenants)
        × (d'.dids ≡ d.dids)
        × ((e : Extension)
            → In e d'.extensions ↔ (In e d.extensions × (stays (some t) object_id e ≡ true))))
      (some-injective _ _ h)
      (refl, refl, λ e. In-select (λ e. not (has_object t object_id e)) e d.extensions)

write_log-rows :
    (w : Services) (p : Fields) (event : Json) (db : Db) (r : Response × Db)
    → write_log w p event db ≡ some r
    → (r.1.tenants ≡ db.tenants) × (r.1.dids ≡ db.dids) × (r.1.extensions ≡ db.extensions)
unfolding write_log
write_log-rows w p null db r h = cc
write_log-rows w p (bool b) db r h = ground arith
write_log-rows w p (int n) db r h = ground arith
write_log-rows w p (float s) db r h = ground arith
write_log-rows w p (str s) db r h = ground arith
write_log-rows w p (arr xs) db r h = ground arith
write_log-rows w p (obj fs) db r h = ground arith

-- A request to delete an extension that the view does not fail on keeps the tenants and the DIDs, and
-- removes exactly the extensions of the tenant that the event resolves to that have the object id; where
-- it resolves to no tenant, it removes nothing.
pub post-extension_deletion :
    (w : Services) (p : Fields) (db : Db) (r : Response × Db)
    → kind_of w p ≡ extension_deletion
    → post w (obj p) db ≡ some r
    → (o : Option Tenant) × (resolve_or_create_tenant w p false db ≡ some (o, db))
      × (r.1.tenants ≡ db.tenants)
      × (r.1.dids ≡ db.dids)
      × ((e : Extension)
          → In e r.1.extensions ↔ (In e db.extensions × (stays o (object_id_of w p) e ≡ true)))
unfolding post post_object process
post-extension_deletion w p db r k = rw k (λ h.
    let (d', e, f) =
      and_then-some (process w p extension_deletion db) (write_log w p (event_type_of p)) r h in
    let (a, b, c) = write_log-rows w p (event_type_of p) d' r f in
    let ((o, d), g, l) =
      and_then-some (resolve_or_create_tenant w p false db)
        (for_tenant (λ t d. some (extension_deleted t (object_id_of w p) d))) d' e in
    let s : d ≡ db = find_or_nothing w p db (o, d) g in
    let (x, y, z) = deleted_rows o (object_id_of w p) d d' l in
    (
      o,
      g ∙ ap (λ (d : Db). some (o, d)) s,
      a ∙ x ∙ ap (λ (d : Db). d.tenants) s,
      b ∙ y ∙ ap (λ (d : Db). d.dids) s,
      λ e'.
          subst
            (λ (es : List Extension).
              In e' es ↔ (In e' db.extensions × (stays o (object_id_of w p) e' ≡ true)))
            (sym c)
            (subst
              (λ (d : Db).
                In e' d'.extensions ↔ (In e' d.extensions × (stays o (object_id_of w p) e' ≡ true)))
              s (z e')),
    ))
