-- ===== src/Webhooks/FreeSwitch/Isolated.antt =====
-- The FreeSWITCH webhook (apps/webhooks/views.py): which rows a whole request changes.
use mathlib.Core.Path.{subst}
use mathlib.Core.Option.{some-injective}
use unified_communication_ba.Common.{
  ℕ, ◌≡◌, nat_eq, In, refl, sym, Bool, true, false, Option, none, some, List, arith,
}
use unified_communication_ba.Json.{Json, null, bool, int, float, str, arr, obj, Fields}
use unified_communication_ba.Models.{Tenant, Extension, Did}
use unified_communication_ba.Webhooks.FreeSwitch.State.{Db, Services, and_then}
use unified_communication_ba.Webhooks.FreeSwitch.Payload.{event_type_of, object_id_of}
use unified_communication_ba.Webhooks.FreeSwitch.Tenants.{
  resolve_or_create_tenant, provision_tenant,
}
use unified_communication_ba.Webhooks.FreeSwitch.Extensions.{
  extension_created, extension_updated, extension_deleted,
}
use unified_communication_ba.Webhooks.FreeSwitch.Dids.{did_put, did_deleted}
use unified_communication_ba.Webhooks.FreeSwitch.Post.{
  for_tenant, EventKind, provisioning, extension_update, extension_creation, extension_deletion,
  did_change, did_deletion, other, process, Response, write_log, post_object, post, kind_of,
}
use unified_communication_ba.Webhooks.FreeSwitch.Tables.{
  and_then-some, SameTables, resolve_or_create_tenant-SameTables, provision_tenant-SameTables,
}
use unified_communication_ba.Webhooks.FreeSwitch.ExtensionRows.{
  HasKeys, OnlyTenant, same_rows, OnlyTenant-trans,
}
use unified_communication_ba.Webhooks.FreeSwitch.EventRows.{
  did_put-OnlyTenant, extension_deleted-OnlyTenant, did_deleted-OnlyTenant,
  extension_updated-OnlyTenant, extension_created-OnlyTenant,
}

HasKeys-SameTables : {db db' : Db} → SameTables db db' → HasKeys db → HasKeys db'
HasKeys-SameTables h k = record {
  extensions =
      subst (λ (es : List Extension). (x y : Extension) → In x es → In y es → x.id ≡ y.id → x ≡ y)
        (sym h.extensions) k.extensions;
  dids =
      subst (λ (ds : List Did). (x y : Did) → In x ds → In y ds → x.id ≡ y.id → x ≡ y) (sym h.dids)
        k.dids;
}

for_tenant-OnlyTenant :
    (f : Tenant → Db → Option Db)
    → ((t : Tenant) (d d' : Db) → HasKeys d → f t d ≡ some d' → OnlyTenant t.id d d')
    → (db db' : Db) (o : Option Tenant) (d : Db) → HasKeys db
    → SameTables db d
    → for_tenant f (o, d) ≡ some db'
    → (t : ℕ) × OnlyTenant t db db'
unfolding for_tenant
for_tenant-OnlyTenant f h db db' none d keys same e =
    subst (λ (d : Db). (t : ℕ) × OnlyTenant t db d) (some-injective _ _ e)
      (0, same_rows 0 db d same.extensions same.dids)
for_tenant-OnlyTenant f h db db' (some t) d keys same e = (
  t.id,
  OnlyTenant-trans (same_rows t.id db d same.extensions same.dids)
      (h t d db' (HasKeys-SameTables same keys) e),
)

resolved-OnlyTenant :
    (w : Services) (p : Fields) (auto : Bool) (f : Tenant → Db → Option Db)
    → ((t : Tenant) (d d' : Db) → HasKeys d → f t d ≡ some d' → OnlyTenant t.id d d')
    → (db db' : Db) → HasKeys db
    → and_then (resolve_or_create_tenant w p auto db) (for_tenant f) ≡ some db'
    → (t : ℕ) × OnlyTenant t db db'
unfolding for_tenant
resolved-OnlyTenant w p auto f h db db' keys e =
    let ((o, d), g, k) =
      and_then-some (resolve_or_create_tenant w p auto db) (for_tenant f) db' e in
    let same = resolve_or_create_tenant-SameTables w p auto db (o, d) g in
    for_tenant-OnlyTenant f h db db' o d keys same k

process-OnlyTenant :
    (w : Services) (p : Fields) (k : EventKind) (db db' : Db)
    → HasKeys db
    → process w p k db ≡ some db'
    → (t : ℕ) × OnlyTenant t db db'
unfolding process
process-OnlyTenant w p provisioning db db' keys h =
    let s = provision_tenant-SameTables w p db in
    subst (λ (d : Db). (t : ℕ) × OnlyTenant t db d) (some-injective _ _ h)
      (0, same_rows 0 db (provision_tenant w p db) s.extensions s.dids)
process-OnlyTenant w p extension_update db db' keys h =
    resolved-OnlyTenant w p true (λ t d. extension_updated w t (object_id_of w p) d)
      (λ t d d'. extension_updated-OnlyTenant w t (object_id_of w p) d d') db db' keys h
process-OnlyTenant w p extension_creation db db' keys h =
    resolved-OnlyTenant w p true (λ t d. extension_created w p t (object_id_of w p) d)
      (λ t d d'. extension_created-OnlyTenant w p t (object_id_of w p) d d') db db' keys h
process-OnlyTenant w p extension_deletion db db' keys h =
    resolved-OnlyTenant w p false (λ t d. some (extension_deleted t (object_id_of w p) d))
      (λ t d d' k e.
        subst (OnlyTenant t.id d) (some-injective _ _ e)
          (extension_deleted-OnlyTenant t (object_id_of w p) d))
      db db' keys h
process-OnlyTenant w p did_change db db' keys h =
    resolved-OnlyTenant w p true (λ t d. some (did_put w p t (object_id_of w p) d))
      (λ t d d' k e.
        subst (OnlyTenant t.id d) (some-injective _ _ e)
          (did_put-OnlyTenant w p t (object_id_of w p) d k))
      db db' keys h
process-OnlyTenant w p did_deletion db db' keys h =
    resolved-OnlyTenant w p false (λ t d. some (did_deleted t (object_id_of w p) d))
      (λ t d d' k e.
        subst (OnlyTenant t.id d) (some-injective _ _ e)
          (did_deleted-OnlyTenant t (object_id_of w p) d))
      db db' keys h
process-OnlyTenant w p other db db' keys h =
    subst (λ (d : Db). (t : ℕ) × OnlyTenant t db d) (some-injective _ _ h)
      (0, same_rows 0 db db refl refl)

write_log-same :
    (w : Services) (p : Fields) (event : Json) (db : Db) (r : Response × Db)
    → write_log w p event db ≡ some r
    → (r.1.extensions ≡ db.extensions) × (r.1.dids ≡ db.dids)
unfolding write_log
write_log-same w p null db r h = cc
write_log-same w p (bool b) db r h = ground arith
write_log-same w p (int n) db r h = ground arith
write_log-same w p (float s) db r h = ground arith
write_log-same w p (str s) db r h = ground arith
write_log-same w p (arr xs) db r h = ground arith
write_log-same w p (obj fs) db r h = ground arith

-- Where ids name one row, a request with a JSON object that the view does not fail on changes the
-- extensions and the DIDs of at most one tenant: every other tenant has the same ones as before.
pub post-OnlyTenant :
    (w : Services) (p : Fields) (db : Db) (r : Response × Db)
    → HasKeys db
    → post w (obj p) db ≡ some r
    → (t : ℕ) × OnlyTenant t db r.1
unfolding post post_object
post-OnlyTenant w p db r keys h =
    let (d, e, f) =
      and_then-some (process w p (kind_of w p) db) (write_log w p (event_type_of p)) r h in
    let (g, k) = write_log-same w p (event_type_of p) d r f in
    let (t, only) = process-OnlyTenant w p (kind_of w p) db d keys e in
    (t, OnlyTenant-trans only (same_rows t d r.1 g k))
