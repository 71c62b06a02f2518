-- ===== src/Webhooks/Telnyx/Inbound.antt =====
-- `_handle_inbound_message`: a message that was received.
use unified_communication_ba.Common.{
  ℕ, not, Option, none, some, List, [], ◌∷◌, Text, codes, nonempty, ◌==◌, nat_eq, list_eq,
  if◌then◌else◌, first, select,
}
use unified_communication_ba.Json.{Json, Fields, get_field, get_or_null, str}
use unified_communication_ba.Models.{Did}
use unified_communication_ba.Messaging.{
  Conversation, Threads, Message, inbound, received, Store, Directory, Outside, id_text,
  resolve_conversation, create_message, download_message_media, touch, broadcast_message_event,
}
use unified_communication_ba.Webhooks.Telnyx.Payload.{texts_under, from_number_of}

unfoldable pub did_with_number : Text → List Did → Option Did
unfolding first
did_with_number n = first (λ (d : Did). d.number == n)

-- `[from_number] + [n for n in to_numbers if n != did_number]`
unfoldable pub participant_numbers : Text → List Text → Text → List Text
unfolding select
participant_numbers sender to_numbers did_number =
    sender ∷ select (λ n. not (n == did_number)) to_numbers

abbrev pub or_text : Option Json → Json
or_text none = str []
or_text (some v) = v

-- `message_payload.get("text", "")`: the column is not null
unfoldable pub body_of : Outside → Fields → Option Text
unfolding get_field id_text
body_of w p = id_text w.repr (or_text (get_field (codes "text") p))

abbrev pub new_inbound : Outside → Did → Text → Text → Option Text → Conversation → ℕ → Message
new_inbound w d sender body key c id = record {
  id = id;
  conversation = c.id;
  tenant = d.tenant;
  did = d.id;
  user = none;
  direction = inbound;
  from_number = sender;
  body = body;
  telnyx_message_id = key;
  status = received;
  error_code = none;
  error_detail = none;
  sent_at = none;
  delivered_at = none;
  created_at = w.now;
}

abbrev pub finish_inbound : Outside → Directory → Message → Option Store → Option Store
finish_inbound w dir m none = none
finish_inbound w dir m (some s) =
    some (broadcast_message_event w dir m (touch m.conversation w.now s))

abbrev pub with_media :
    Outside → Directory → Message → Option (List Text) → Option Store → Option Store
with_media w dir m none s = none
with_media w dir m (some urls) none = none
with_media w dir m (some urls) (some s) =
    finish_inbound w dir m (download_message_media w m.id urls s)

-- The message in its conversation.
unfoldable pub store_inbound :
    Outside
    → Directory
    → Fields
    → Did
    → Text
    → Store
    → Option Text
    → Option (Conversation × Threads)
    → Option Store
unfolding get_or_null id_text texts_under create_message download_message_media touch
    broadcast_message_event
store_inbound w dir p d sender s none r = none
store_inbound w dir p d sender s (some body) none = none
store_inbound w dir p d sender s (some body) (some (c, threads)) =
    let m = new_inbound w d sender body (id_text w.repr (get_or_null (codes "id") p)) c s.next_id in
    with_media w dir m (texts_under w.repr (codes "media") (codes "url") p)
      (create_message m (record s { threads = threads }))

unfoldable pub receive_for :
    Outside → Directory → Fields → Text → List Text → Text → Store → Option Did → Option Store
unfolding body_of participant_numbers resolve_conversation store_inbound
receive_for w dir p sender to_numbers did_number s none = some s
receive_for w dir p sender to_numbers did_number s (some d) =
    store_inbound w dir p d sender s (body_of w p) (
      resolve_conversation dir.contacts w.now d.tenant d.id
        (participant_numbers sender to_numbers did_number) s.threads)

unfoldable pub receive :
    Outside → Directory → Fields → Option Text → Option (List Text) → Store → Option Store
unfolding did_with_number receive_for
receive w dir p none to_numbers s = none
receive w dir p (some sender) none s = none
receive w dir p (some sender) (some []) s = some s
receive w dir p (some sender) (some (n ∷ ns)) s =
    if nonempty sender
    then receive_for w dir p sender (n ∷ ns) n s (did_with_number n dir.dids)
    else some s

unfoldable pub handle_inbound_message : Outside → Directory → Fields → Store → Option Store
unfolding from_number_of texts_under receive
handle_inbound_message w dir p s =
    receive w dir p (from_number_of w.repr p)
      (texts_under w.repr (codes "to") (codes "phone_number") p) s
