-- ===== src/Webhooks/Telnyx/Post.antt =====
-- `TelnyxWebhookView.post`: the signature, the event, the log.
use unified_communication_ba.Common.{
  ℕ, ◌+◌, ◌*◌, Bool, ◌&&◌, ◌||◌, Option, none, some, List, [], ◌∷◌, ◌++◌, Text, codes, nonempty,
  list_eq, nat_eq, if◌then◌else◌,
}
use unified_communication_ba.Json.{Json, null, str, obj, Fields, get_field, str_of, truthy}
use unified_communication_ba.Messaging.{Store, Directory, Outside}
use unified_communication_ba.Webhooks.FreeSwitch.{WebhookLog, pending}
use unified_communication_ba.Webhooks.Telnyx.Payload.{
  dict_or_empty, data_of, event_of, message_of_event,
}
use unified_communication_ba.Webhooks.Telnyx.Status.{is_status, handle_status_update}
use unified_communication_ba.Webhooks.Telnyx.Inbound.{handle_inbound_message}

pub record Request : Type 0 where
  pub signature : Option Text
  pub timestamp : Option Text
  pub body : Text
  pub json : Json

-- The messages and the log of webhooks.
pub record Hooks : Type 0 where
  pub store : Store
  pub logs : List WebhookLog

pub data TelnyxResponse : Type 0 where
  invalid_signature : TelnyxResponse
  accepted : Json → TelnyxResponse

abbrev pub header : Option Text → Text
header none = []
header (some s) = s

-- `_verify_signature`: the check of an Ed25519 signature is the argument `verify`, of the key, the signature
-- and the signed bytes, and false where it raises.
unfoldable pub verify_signature : (Text → Text → Text → Bool) → Text → Request → Bool
verify_signature verify public_key r =
    nonempty public_key
    && (nonempty (header r.signature) && nonempty (header r.timestamp))
    && verify public_key (header r.signature) (header r.timestamp ++ codes "|" ++ r.body)

-- What the event does.
unfoldable pub handle_event : Outside → Directory → Fields → Store → Option Store
unfolding event_of message_of_event is_status handle_status_update handle_inbound_message
handle_event w dir p s =
    if is_status (codes "message.sent") (event_of p)
      || is_status (codes "message.finalized") (event_of p)
    then handle_status_update w (message_of_event p) s
    else if is_status (codes "message.received") (event_of p)
    then handle_inbound_message w dir (message_of_event p) s
    else some s

abbrev pub id_or_empty : Option Json → Json
id_or_empty none = str []
id_or_empty (some v) = v

-- `telnyx_message_id or None`
unfoldable pub log_object : Outside → Fields → Option Text
unfolding get_field truthy str_of
log_object w p =
    let id = id_or_empty (get_field (codes "id") p) in
    if truthy id then some (str_of w.repr id) else none

unfoldable pub telnyx_log : Outside → Fields → Json → ℕ → WebhookLog
unfolding data_of message_of_event log_object str_of
telnyx_log w envelope event id = record {
  id = id;
  provider = codes "telnyx";
  event_type = str_of w.repr event;
  object_id = log_object w (message_of_event (data_of envelope));
  tenant_id = [];
  tenant_code = [];
  provider_timestamp = none;
  payload = obj envelope;
  processing_status = pending;
  expires_at = w.now + 48 * 3600;
}

-- The log of an event, which needs an event type.
unfoldable pub log_event :
    Outside → Fields → Json → List WebhookLog → Option Store → Option (TelnyxResponse × Hooks)
unfolding telnyx_log
log_event w envelope event logs none = none
log_event w envelope null logs (some s) = none
log_event w envelope event logs (some s) = some (
  accepted event,
  record {
    store = record s { next_id = s.next_id + 1 };
    logs = logs ++ telnyx_log w envelope event s.next_id ∷ [];
  },
)

unfoldable pub accept : Outside → Directory → Fields → Hooks → Option (TelnyxResponse × Hooks)
unfolding data_of event_of handle_event log_event
accept w dir envelope h =
    log_event w envelope (event_of (data_of envelope)) h.logs
      (handle_event w dir (data_of envelope) h.store)

-- `none` is an exception: the request fails and changes nothing.
unfoldable pub telnyx_post :
    (Text → Text → Text → Bool)
    → Text
    → Outside
    → Directory
    → Request
    → Hooks
    → Option (TelnyxResponse × Hooks)
unfolding verify_signature accept
telnyx_post verify public_key w dir r h =
    if verify_signature verify public_key r
    then accept w dir (dict_or_empty r.json) h
    else some (invalid_signature, h)
