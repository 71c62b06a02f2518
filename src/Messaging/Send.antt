-- ===== src/Messaging/Send.antt =====
-- apps/messaging/views.py, `SendMessageView.post`. What `TelnyxClientService.send_message` (a call over HTTP)
-- gives is an argument; so is the validated request, which is missing where the serializer refuses it.
use unified_communication_ba.Common.{
  ℕ, not, Option, none, some, List, Text, codes, nonempty, ◌==◌, nat_eq, if◌then◌else◌,
}
use unified_communication_ba.Json.{
  Json, null, bool, int, float, str, arr, obj, end, get_field, get_or_null, decimal, str_of,
}
use unified_communication_ba.Models.{Tenant, User, Did}
use unified_communication_ba.Users.Features.{is_feature_enabled}
use unified_communication_ba.Messaging.Defs.{
  Conversation, Threads, Message, outbound, queued, sent, failed, Store, Directory, Outside,
}
use unified_communication_ba.Messaging.Resolve.{resolve_conversation}
use unified_communication_ba.Messaging.Media.{download_message_media}
use unified_communication_ba.Messaging.Broadcast.{broadcast_message_event}
use unified_communication_ba.Messaging.Rows.{create_message, save_message, touch}

-- The answer of the provider: its JSON, an `HTTPStatusError` with the status and the text, a `RequestError`
-- with its text, or another exception.
pub data SendOutcome : Type 0 where
  telnyx_response : Json → SendOutcome
  http_status_error : ℕ → Text → SendOutcome
  request_error : Text → SendOutcome
  other_error : SendOutcome

-- `serializer.validated_data`
pub record SendData : Type 0 where
  pub did : Did
  pub to_numbers : List Text
  pub body : Text
  pub media_urls : List Text

pub data SendResponse : Type 0 where
  feature_disabled no_messaging_profile invalid_request did_of_other_tenant : SendResponse
  telnyx_rejected : Text → SendResponse
  telnyx_unreachable : SendResponse
  message_created : Message → SendResponse

-- The provider's id in a new message; a JSON value is stored as its text.
unfoldable pub id_text : (Json → Text) → Json → Option Text
unfolding str_of
id_text repr null = none
id_text repr (bool b) = some (str_of repr (bool b))
id_text repr (int n) = some (str_of repr (int n))
id_text repr (float s) = some s
id_text repr (str s) = some s
id_text repr (arr xs) = some (repr (arr xs))
id_text repr (obj fs) = some (repr (obj fs))

-- `x.get(key)`: only a `dict` has the method.
abbrev pub get_of : Text → Json → Option Json
get_of k (obj fs) = some (get_or_null k fs)
get_of k null = none
get_of k (bool b) = none
get_of k (int n) = none
get_of k (float s) = none
get_of k (str s) = none
get_of k (arr xs) = none

abbrev pub data_or_empty : Option Json → Json
data_or_empty none = obj end
data_or_empty (some v) = v

-- `telnyx_response.get("data", {}).get("id")`
unfoldable pub sent_id : Json → Option Json
unfolding get_field get_or_null
sent_id (obj fs) = get_of (codes "id") (data_or_empty (get_field (codes "data") fs))
sent_id null = none
sent_id (bool b) = none
sent_id (int n) = none
sent_id (float s) = none
sent_id (str s) = none
sent_id (arr xs) = none

abbrev pub new_outbound : Outside → Tenant → User → SendData → Conversation → ℕ → Message
new_outbound w t u d c id = record {
  id = id;
  conversation = c.id;
  tenant = t.id;
  did = d.did.id;
  user = some u.id;
  direction = outbound;
  from_number = d.did.number;
  body = d.body;
  telnyx_message_id = none;
  status = queued;
  error_code = none;
  error_detail = none;
  sent_at = none;
  delivered_at = none;
  created_at = w.now;
}

abbrev pub respond : SendResponse → Option Store → Option (SendResponse × Store)
respond r none = none
respond r (some s) = some (r, s)

abbrev pub failed_message : Message → Option Text → Option Text → Message
failed_message m code detail = record m {
  status = failed;
  error_code = code;
  error_detail = detail;
}

-- After the message is stored as sent: the attachments, the conversation, the events.
unfoldable pub finish_send :
    Outside → Directory → SendData → Message → Option Store → Option (SendResponse × Store)
unfolding touch broadcast_message_event
finish_send w d form m none = none
finish_send w d form m (some s) =
    respond (message_created m)
      (some (broadcast_message_event w d m (touch m.conversation w.now s)))

abbrev pub sent_message : Outside → Message → Json → Message
sent_message w m id = record m {
  telnyx_message_id = id_text w.repr id;
  status = sent;
  sent_at = some w.now;
}

-- The provider took the message.
unfoldable pub mark_sent :
    Outside → Directory → SendData → Message → Store → Option Json → Option (SendResponse × Store)
unfolding id_text save_message download_message_media finish_send
mark_sent w d form m s none = none
mark_sent w d form m s (some id) =
    let m' = sent_message w m id in
    elim (save_message m' s) [
      | none ↦ none
      | some s' ↦ finish_send w d form m' (download_message_media w m'.id form.media_urls s')
    ]

-- What the view does with the answer.
unfoldable pub after_send :
    Outside → Directory → SendData → Message → Store → SendOutcome → Option (SendResponse × Store)
unfolding save_message sent_id mark_sent decimal
after_send w d form m s (http_status_error code text) =
    respond (telnyx_rejected text)
      (save_message (failed_message m (some (decimal code)) (some text)) s)
after_send w d form m s (request_error text) =
    respond telnyx_unreachable (save_message (failed_message m m.error_code (some text)) s)
after_send w d form m s other_error = none
after_send w d form m s (telnyx_response r) = mark_sent w d form m s (sent_id r)

-- The message is stored before it is sent.
unfoldable pub send_in :
    Outside
    → (SendData → SendOutcome)
    → Directory
    → Tenant
    → User
    → SendData
    → Store
    → Option (Conversation × Threads)
    → Option (SendResponse × Store)
unfolding create_message after_send
send_in w send d t u form s none = none
send_in w send d t u form s (some (c, threads)) =
    let m = new_outbound w t u form c s.next_id in
    elim (create_message m (record s { threads = threads })) [
      | none ↦ none
      | some s' ↦ after_send w d form m s' (send form)
    ]

unfoldable pub send_valid :
    Outside
    → (SendData → SendOutcome)
    → Directory
    → Tenant
    → User
    → Option SendData
    → Store
    → Option (SendResponse × Store)
unfolding resolve_conversation send_in
send_valid w send d t u none s = some (invalid_request, s)
send_valid w send d t u (some form) s =
    if not (form.did.tenant == t.id)
    then some (did_of_other_tenant, s)
    else send_in w send d t u form s
        (resolve_conversation d.contacts w.now t.id form.did.id form.to_numbers s.threads)

-- The whole handler, for the tenant of the request.
unfoldable pub send_message :
    Outside
    → (SendData → SendOutcome)
    → Directory
    → Tenant
    → User
    → Option SendData
    → Store
    → Option (SendResponse × Store)
unfolding is_feature_enabled send_valid
send_message w send d t u form s =
    if not (is_feature_enabled t (codes "messaging"))
    then some (feature_disabled, s)
    else if not (nonempty t.telnyx_messaging_profile_id)
    then some (no_messaging_profile, s)
    else send_valid w send d t u form s
