-- ===== src/Webhooks/FreeSwitch/Logged.antt =====
-- The log of the FreeSWITCH webhook (apps/webhooks/views.py): what the view writes to it.
use mathlib.Core.Path.{subst}
use mathlib.Core.Option.{some-injective}
use unified_communication_ba.Common.{
  ◌+◌, codes, ◌++◌, ℕ, ◌≡◌, refl, ap, ◌∙◌, Bool, true, false, Option, none, some, List, [], ◌∷◌,
  Text, arith, first,
}
use unified_communication_ba.Json.{Json, null, bool, int, float, str, arr, obj, Fields}
use unified_communication_ba.Models.{Tenant, Extension, Did}
use unified_communication_ba.Webhooks.Sanitize.{sanitize_payload}
use unified_communication_ba.Webhooks.Sanitize.Clean.{IsClean, sanitize_payload-IsClean}
use unified_communication_ba.Webhooks.FreeSwitch.State.{Db, Services, WebhookLog, and_then}
use unified_communication_ba.Webhooks.FreeSwitch.Payload.{py_str, event_type_of, object_id_of}
use unified_communication_ba.Webhooks.FreeSwitch.Tenants.{resolve_or_create_tenant}
use unified_communication_ba.Webhooks.FreeSwitch.Extensions.{
  put_extension, extension_created, given_by_event, given_by_server, has_object, notify_user,
  notify_owner, get_resource, extension_synced, extension_updated, extension_deleted,
}
use unified_communication_ba.Webhooks.FreeSwitch.Dids.{
  notify_users, put_did, did_put, did_deleted, has_did, assigned_user_ids,
}
use unified_communication_ba.Webhooks.FreeSwitch.Post.{
  for_tenant, EventKind, provisioning, extension_update, extension_creation, extension_deletion,
  did_change, did_deletion, other, process, Response, accepted, log_entry, write_log, post_object,
  post, kind_of,
}
use unified_communication_ba.Webhooks.FreeSwitch.Tables.{
  and_then-some, resolve_or_create_tenant-SameTables, provision_tenant-SameTables, SameLogs,
  put_extension-SameLogs,
}

notify_user-SameLogs :
    (w : Services) (t : Tenant) (e : Extension) (u : Option ℕ) (db : Db)
    → SameLogs db (notify_user w t e u db)
unfolding notify_user
notify_user-SameLogs w t e none db = refl
notify_user-SameLogs w t e (some u) db = refl

notify_owner-SameLogs :
    (w : Services) (t : Tenant) (row : Option Extension) (db : Db)
    → SameLogs db (notify_owner w t row db)
notify_owner-SameLogs w t none db = refl
notify_owner-SameLogs w t (some e) db = notify_user-SameLogs w t e e.user db

extension_synced-SameLogs :
    (w : Services) (fs : Json) (t : Tenant) (o : Text) (db db' : Db)
    → extension_synced w fs t o db ≡ some db'
    → SameLogs db db'
unfolding extension_synced
extension_synced-SameLogs w null t o db db' h = ground arith
extension_synced-SameLogs w (bool b) t o db db' h = absurd cc
extension_synced-SameLogs w (int n) t o db db' h = absurd cc
extension_synced-SameLogs w (float s) t o db db' h = absurd cc
extension_synced-SameLogs w (str s) t o db db' h = absurd cc
extension_synced-SameLogs w (arr xs) t o db db' h = absurd cc
extension_synced-SameLogs w (obj p) t o db db' h =
    let row = first (has_object t o) db.extensions in
    let (d, e, f) =
      and_then-some (put_extension w (given_by_server p) t o row db)
        (λ d. some (notify_owner w t row d)) db' h in
    subst (SameLogs db) (some-injective _ _ f) (
      notify_owner-SameLogs w t row d ∙ put_extension-SameLogs w (given_by_server p) t o row db d e)

notify_users-SameLogs :
    (w : Services) (t : Tenant) (d : Did) (us : List ℕ) (db : Db)
    → SameLogs db (notify_users w t d us db)
unfolding notify_users
notify_users-SameLogs w t d [] db = refl
notify_users-SameLogs w t d (u ∷ us) db = notify_users-SameLogs w t d us _

put_did-SameLogs :
    (w : Services) (p : Fields) (t : Tenant) (o : Text) (row : Option Did) (db : Db)
    → SameLogs db (put_did w p t o row db)
unfolding put_did
put_did-SameLogs w p t o none db = refl
put_did-SameLogs w p t o (some d) db =
    notify_users-SameLogs w t d (assigned_user_ids d db.user_dids) _

extension_updated-SameLogs :
    (w : Services) (t : Tenant) (o : Text) (db db' : Db)
    → extension_updated w t o db ≡ some db'
    → SameLogs db db'
unfolding extension_updated
extension_updated-SameLogs w t o db db' h =
    let (j, e, f) =
      and_then-some (get_resource w t (codes "extensions/" ++ o ++ codes "/"))
        (λ j. extension_synced w j t o db) db' h in
    extension_synced-SameLogs w j t o db db' f

extension_created-SameLogs :
    (w : Services) (p : Fields) (t : Tenant) (o : Text) (db db' : Db)
    → extension_created w p t o db ≡ some db'
    → SameLogs db db'
unfolding extension_created
extension_created-SameLogs w p t o db db' h =
    put_extension-SameLogs w (given_by_event p) t o (first (has_object t o) db.extensions) db db' h

extension_deleted-SameLogs :
    (t : Tenant) (o : Text) (db : Db) → SameLogs db (extension_deleted t o db)
unfolding extension_deleted
extension_deleted-SameLogs t o db = refl

did_put-SameLogs :
    (w : Services) (p : Fields) (t : Tenant) (o : Text) (db : Db) → SameLogs db (did_put w p t o db)
unfolding did_put
did_put-SameLogs w p t o db = put_did-SameLogs w p t o (first (has_did t o) db.dids) db

did_deleted-SameLogs : (t : Tenant) (o : Text) (db : Db) → SameLogs db (did_deleted t o db)
unfolding did_deleted
did_deleted-SameLogs t o db = refl

for_tenant-SameLogs :
    (f : Tenant → Db → Option Db)
    → ((t : Tenant) (d d' : Db) → f t d ≡ some d' → SameLogs d d')
    → (r : Option Tenant × Db) (db' : Db) → for_tenant f r ≡ some db'
    → SameLogs r.1 db'
unfolding for_tenant
for_tenant-SameLogs f h (none, db) db' e = ground arith
for_tenant-SameLogs f h (some t, db) db' e = h t db db' e

resolved-SameLogs :
    (w : Services) (p : Fields) (auto : Bool) (f : Tenant → Db → Option Db)
    → ((t : Tenant) (d d' : Db) → f t d ≡ some d' → SameLogs d d')
    → (db db' : Db) → and_then (resolve_or_create_tenant w p auto db) (for_tenant f) ≡ some db'
    → SameLogs db db'
resolved-SameLogs w p auto f h db db' e =
    let (r, g, k) = and_then-some (resolve_or_create_tenant w p auto db) (for_tenant f) db' e in
    for_tenant-SameLogs f h r db' k ∙ (resolve_or_create_tenant-SameTables w p auto db r g).logs

-- Handling an event does not touch the log.
process-SameLogs :
    (w : Services) (p : Fields) (k : EventKind) (db db' : Db)
    → process w p k db ≡ some db'
    → SameLogs db db'
unfolding process
process-SameLogs w p provisioning db db' h =
    subst (SameLogs db) (some-injective _ _ h) (provision_tenant-SameTables w p db).logs
process-SameLogs w p extension_update db db' h =
    resolved-SameLogs w p true (λ t d. extension_updated w t (object_id_of w p) d)
      (λ t d d'. extension_updated-SameLogs w t (object_id_of w p) d d') db db' h
process-SameLogs w p extension_creation db db' h =
    resolved-SameLogs w p true (λ t d. extension_created w p t (object_id_of w p) d)
      (λ t d d'. extension_created-SameLogs w p t (object_id_of w p) d d') db db' h
process-SameLogs w p extension_deletion db db' h =
    resolved-SameLogs w p false (λ t d. some (extension_deleted t (object_id_of w p) d))
      (λ t d d' e.
        subst (SameLogs d) (some-injective _ _ e)
          (extension_deleted-SameLogs t (object_id_of w p) d))
      db db' h
process-SameLogs w p did_change db db' h =
    resolved-SameLogs w p true (λ t d. some (did_put w p t (object_id_of w p) d))
      (λ t d d' e.
        subst (SameLogs d) (some-injective _ _ e) (did_put-SameLogs w p t (object_id_of w p) d))
      db db' h
process-SameLogs w p did_deletion db db' h =
    resolved-SameLogs w p false (λ t d. some (did_deleted t (object_id_of w p) d))
      (λ t d d' e.
        subst (SameLogs d) (some-injective _ _ e) (did_deleted-SameLogs t (object_id_of w p) d))
      db db' h
process-SameLogs w p other db db' h = ground arith

write_log-some :
    (w : Services) (p : Fields) (event : Json) (db db' : Db) (r : Response)
    → write_log w p event db ≡ some (r, db')
    → (r ≡ accepted db.next_id event) × (db'.logs ≡ db.logs ++ log_entry w p db.next_id ∷ [])
unfolding write_log
write_log-some w p null db db' r h = cc
write_log-some w p (bool b) db db' r h = ground arith
write_log-some w p (int n) db db' r h = ground arith
write_log-some w p (float s) db db' r h = ground arith
write_log-some w p (str s) db db' r h = ground arith
write_log-some w p (arr xs) db db' r h = ground arith
write_log-some w p (obj fs) db db' r h = ground arith

-- A JSON object that the view does not fail on is accepted, with the id of the one entry that the log gets.
-- The entry has the text of the event type and expires after 48 hours, and its payload is the sanitized object:
-- it holds no value under a sensitive key but the mark.
pub post-logged :
    (w : Services) (p : Fields) (db db' : Db) (r : Response)
    → post w (obj p) db ≡ some (r, db')
    → (log : WebhookLog) × (r ≡ accepted log.id (event_type_of p))
      × (db'.logs ≡ db.logs ++ log ∷ [])
      × (log.provider ≡ codes "freeswitch")
      × (log.event_type ≡ py_str w (event_type_of p))
      × (log.expires_at ≡ w.now + 172800)
      × (log.payload ≡ sanitize_payload (obj p))
      × IsClean log.payload
unfolding post post_object log_entry
post-logged w p db db' r h =
    let (d, e, f) =
      and_then-some (process w p (kind_of w p) db) (write_log w p (event_type_of p)) (r, db') h in
    let (g, k) = write_log-some w p (event_type_of p) d db' r f in
    (
      log_entry w p d.next_id,
      g,
      k
          ∙ ap (λ (ls : List WebhookLog). ls ++ log_entry w p d.next_id ∷ [])
              (process-SameLogs w p (kind_of w p) db d e),
      refl,
      refl,
      refl,
      refl,
      sanitize_payload-IsClean (obj p),
    )
