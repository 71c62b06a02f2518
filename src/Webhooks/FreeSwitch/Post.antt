-- ===== src/Webhooks/FreeSwitch/Post.antt =====
-- `FreeSwitchWebhookView.post`: the event is handled, then logged with its sanitized payload.
use unified_communication_ba.Common.{
  ℕ, ◌+◌, ◌*◌, true, false, ◌&&◌, ◌||◌, Option, none, some, [], ◌∷◌, ◌++◌, Text, codes, nonempty,
  if◌then◌else◌,
}
use unified_communication_ba.Json.{Json, null, bool, int, float, str, arr, obj, Fields}
use unified_communication_ba.Models.{Tenant}
use unified_communication_ba.Webhooks.Sanitize.{sanitize_payload}
use unified_communication_ba.Webhooks.FreeSwitch.State.{Db, Services, WebhookLog, pending, and_then}
use unified_communication_ba.Webhooks.FreeSwitch.Payload.{
  py_str, event_type_of, tenant_id_of, tenant_code_of, object_id_of, provider_timestamp_of,
  is_event,
}
use unified_communication_ba.Webhooks.FreeSwitch.Tenants.{
  resolve_or_create_tenant, provision_tenant,
}
use unified_communication_ba.Webhooks.FreeSwitch.Extensions.{
  extension_created, extension_updated, extension_deleted,
}
use unified_communication_ba.Webhooks.FreeSwitch.Dids.{did_put, did_deleted}

-- `if tenant:`
unfoldable pub for_tenant : (Tenant → Db → Option Db) → Option Tenant × Db → Option Db
for_tenant f (none, db) = some db
for_tenant f (some t, db) = f t db

pub data EventKind : Type 0 where
  provisioning extension_update extension_creation extension_deletion did_change did_deletion :
      EventKind
  other : EventKind

-- The branch that the event takes.
unfoldable pub kind_of : Services → Fields → EventKind
unfolding is_event event_type_of tenant_id_of object_id_of
kind_of w p =
    let event = event_type_of p in
    let with_object = nonempty (object_id_of w p) in
    if (is_event (codes "api_key.created") event || is_event (codes "tenant.created") event)
      && nonempty (tenant_id_of w p)
    then provisioning
    else if is_event (codes "extension.updated") event && with_object
    then extension_update
    else if is_event (codes "extension.created") event && with_object
    then extension_creation
    else if is_event (codes "extension.deleted") event && with_object
    then extension_deletion
    else if (is_event (codes "did.created") event || is_event (codes "did.updated") event)
        && with_object
    then did_change
    else if is_event (codes "did.deleted") event && with_object
    then did_deletion
    else other

-- What the event does to the tables.
unfoldable pub process : Services → Fields → EventKind → Db → Option Db
unfolding resolve_or_create_tenant for_tenant
process w p provisioning db = some (provision_tenant w p db)
process w p extension_update db =
    and_then (resolve_or_create_tenant w p true db)
      (for_tenant (λ t db'. extension_updated w t (object_id_of w p) db'))
process w p extension_creation db =
    and_then (resolve_or_create_tenant w p true db)
      (for_tenant (λ t db'. extension_created w p t (object_id_of w p) db'))
process w p extension_deletion db =
    and_then (resolve_or_create_tenant w p false db)
      (for_tenant (λ t db'. some (extension_deleted t (object_id_of w p) db')))
process w p did_change db =
    and_then (resolve_or_create_tenant w p true db)
      (for_tenant (λ t db'. some (did_put w p t (object_id_of w p) db')))
process w p did_deletion db =
    and_then (resolve_or_create_tenant w p false db)
      (for_tenant (λ t db'. some (did_deleted t (object_id_of w p) db')))
process w p other db = some db

-- `object_id if object_id else None`
abbrev pub object_or_none : Text → Option Text
object_or_none object_id = if nonempty object_id then some object_id else none

unfoldable pub log_entry : Services → Fields → ℕ → WebhookLog
unfolding py_str event_type_of object_id_of tenant_id_of tenant_code_of provider_timestamp_of
    sanitize_payload
log_entry w p id = record {
  id = id;
  provider = codes "freeswitch";
  event_type = py_str w (event_type_of p);
  object_id = object_or_none (object_id_of w p);
  tenant_id = tenant_id_of w p;
  tenant_code = tenant_code_of w p;
  provider_timestamp = provider_timestamp_of w p;
  payload = sanitize_payload (obj p);
  processing_status = pending;
  expires_at = w.now + 48 * 3600;
}

pub data Response : Type 0 where
  bad_request : Response
  accepted : ℕ → Json → Response

-- A log without an event type breaks the NOT NULL constraint.
unfoldable pub write_log : Services → Fields → Json → Db → Option (Response × Db)
unfolding log_entry
write_log w p null db = none
write_log w p event db = some (
  accepted db.next_id event,
  record db { logs = db.logs ++ log_entry w p db.next_id ∷ []; next_id = db.next_id + 1 },
)

unfoldable pub post_object : Services → Fields → Db → Option (Response × Db)
unfolding process kind_of write_log event_type_of
post_object w p db = and_then (process w p (kind_of w p) db) (write_log w p (event_type_of p))

-- `none` is an exception: the request fails and changes nothing.
unfoldable pub post : Services → Json → Db → Option (Response × Db)
unfolding post_object
post w (obj p) db = post_object w p db
post w null db = some (bad_request, db)
post w (bool b) db = some (bad_request, db)
post w (int n) db = some (bad_request, db)
post w (float s) db = some (bad_request, db)
post w (str s) db = some (bad_request, db)
post w (arr xs) db = some (bad_request, db)
