-- ===== src/Webhooks/Telnyx/Tests.antt =====
-- Tests and instances of the theorems on sending and receiving messages.
use unified_communication_ba.Common.{
  ◌≡◌, ◌⊎◌, inl, inr, ap, refl, Bool, true, false, ◌&&◌, Option, none, some, [], ◌∷◌, Text, codes,
  ◌==◌, nat_eq, list_eq, update_where, or_default, contains, arith, if◌then◌else◌,
}
use unified_communication_ba.Json.{
  str, arr, obj, nil, cons, Fields, end, field, decimal, get_or_null,
}
use unified_communication_ba.Models.{Tenant, User, admin, Did}
use unified_communication_ba.Messaging.{
  Conversation, Message, outbound, sent, Store, Directory, Outside, answer, id_text, SendData,
  SendOutcome, SendResponse, telnyx_response, invalid_request, send_message, mark_read, is_unread,
}
use unified_communication_ba.Messaging.Sound.{IsSound}
use unified_communication_ba.Messaging.Answered.{Refused, Allowed}
use unified_communication_ba.Messaging.Filing.{IsFiled}
use unified_communication_ba.Messaging.Sent.{Sent, send_message-outcome}
use unified_communication_ba.Messaging.Unread.{later_than, is_unread-mark_read}
use unified_communication_ba.Webhooks.Telnyx.Payload.{dict_or_empty}
use unified_communication_ba.Webhooks.Telnyx.Status.{handle_status_update}
use unified_communication_ba.Webhooks.Telnyx.Inbound.{handle_inbound_message}
use unified_communication_ba.Webhooks.Telnyx.Post.{
  Request, Hooks, TelnyxResponse, invalid_signature, telnyx_post,
}
use unified_communication_ba.Webhooks.Telnyx.Updated.{
  Updated, Unknown, handle_status_update-OnlyState,
}
use unified_communication_ba.Webhooks.Telnyx.Filed.{Filed}
use unified_communication_ba.Webhooks.Telnyx.Stored.{handle_inbound_message-again}
use unified_communication_ba.Webhooks.Telnyx.Signed.{IsSigned, Logged, telnyx_post-Logged}
use unified_communication_ba.Webhooks.Telnyx.Reached.{
  send, webhook, Reach, here, next, Reach-IsFiled,
}

abbrev outside : Outside
outside = record {
  now = 50;
  uuid_text = decimal;
  time_text = decimal;
  repr = λ x. [];
  fetch = λ url. answer (some (codes "image/png")) 7;
}

abbrev line : Did
line = record {
  id = 4;
  tenant = 1;
  department = none;
  freeswitch_object_id = codes "d4";
  number = codes "+15559999";
  name = [];
  account = none;
}

abbrev directory : Directory
directory = record {
  dids = line ∷ [];
  user_dids = record { user = 8; did = 4 } ∷ [];
  contacts = [];
}

abbrev thread : Conversation
thread = record {
  id = 3;
  tenant = 1;
  did = 4;
  is_group = false;
  last_message_at = some 20;
  created_at = 10;
}

-- A message that the provider took and knows as "abc".
abbrev greeting : Message
greeting = record {
  id = 5;
  conversation = 3;
  tenant = 1;
  did = 4;
  user = some 8;
  direction = outbound;
  from_number = codes "+15559999";
  body = codes "Hello";
  telnyx_message_id = some (codes "abc");
  status = sent;
  error_code = none;
  error_detail = none;
  sent_at = some 20;
  delivered_at = none;
  created_at = 20;
}

abbrev store : Store
store = record {
  threads = record {
    conversations = thread ∷ [];
    participants =
        record { conversation = 3; phone_number = codes "+15550100"; contact_id = none } ∷ [];
    next_id = 7;
  };
  messages = greeting ∷ [];
  media = [];
  read_states = [];
  events = [];
  next_id = 10;
}

abbrev hooks : Hooks
hooks = record { store = store; logs = [] }

store-IsSound : IsSound store
unfolding contains
store-IsSound = record {
  fresh = record {
    conversations = λ c i. elim i [ inl e ↦ rw e (ground arith) | inr n ↦ absurd n ];
    participants = λ p i. elim i [ inl e ↦ rw e (ground arith) | inr n ↦ absurd n ];
  };
  below = λ m i. elim i [ inl e ↦ rw e (ground arith) | inr n ↦ absurd n ];
  distinct = (refl, tt);
  one_key = λ a b k i j p q. elim i [
    | inl e ↦ elim j [ inl f ↦ rw e (rw f refl) | inr n ↦ absurd n ]
    | inr n ↦ absurd n
  ];
}

-- The report that "abc" was delivered.
abbrev delivery : Fields
delivery = field (codes "id") (str (codes "abc")) (
    field (codes "to") (arr (cons (obj (field (codes "status") (str (codes "delivered")) end)) nil))
      end)

abbrev delivered_store : Store
delivered_store = or_default (handle_status_update outside delivery store) store

delivery-runs : handle_status_update outside delivery store ≡ some delivered_store
unfolding handle_status_update
delivery-runs = refl

handle_status_update-OnlyState_example :
    ((delivered_store ≡ store) × Unknown outside delivery store)
    ⊎ ((u : Updated outside delivery store delivered_store) × (delivered_store ≡ record store {
      messages =
          update_where (λ (x : Message). x.id == u.message'.id) (λ _. u.message') store.messages;
    }))
handle_status_update-OnlyState_example =
    handle_status_update-OnlyState outside delivery store delivered_store delivery-runs

-- A message with a picture from the number of the thread.
abbrev answer_from : Text → Fields
answer_from id = field (codes "id") (str id) (
    field (codes "from") (obj (field (codes "phone_number") (str (codes "+15550100")) end)) (
      field (codes "to")
        (arr (cons (obj (field (codes "phone_number") (str (codes "+15559999")) end)) nil))
        (field (codes "text") (str (codes "Hi")) (
          field (codes "media")
            (arr (cons (obj (field (codes "url") (str (codes "https://x/y.png?z")) end)) nil))
            end))))

abbrev received_store : Store
received_store =
    or_default (handle_inbound_message outside directory (answer_from (codes "xyz")) store) store

-- The known message, received again.
abbrev again : Option Store
again = handle_inbound_message outside directory (answer_from (codes "abc")) store

again-fails : again ≡ none
unfolding handle_inbound_message
again-fails = refl

known_id :
    id_text outside.repr (get_or_null (codes "id") (answer_from (codes "abc"))) ≡ some (codes "abc")
unfolding id_text get_or_null
known_id = refl

handle_inbound_message-again_example : (again ≡ none) ⊎ (again ≡ some store)
handle_inbound_message-again_example =
    handle_inbound_message-again outside directory (answer_from (codes "abc")) store greeting
      (codes "abc") store-IsSound (inl refl) refl known_id

-- The request of the provider, signed with the text "good".
abbrev signed : Request
signed = record {
  signature = some (codes "good");
  timestamp = some (codes "1");
  body = [];
  json = obj (
      field (codes "data")
        (obj (
          field (codes "event_type") (str (codes "message.received"))
            (field (codes "payload") (obj (answer_from (codes "xyz"))) end)))
        end);
}

abbrev verify : Text → Text → Text → Bool
verify public_key signature signed_payload = signature == codes "good"

abbrev logged : TelnyxResponse × Hooks
logged =
    or_default (telnyx_post verify (codes "key") outside directory signed hooks)
      (invalid_signature, hooks)

signed-runs : telnyx_post verify (codes "key") outside directory signed hooks ≡ some logged
unfolding telnyx_post
signed-runs = refl

logged-messages : logged.1.store.messages ≡ received_store.messages
unfolding telnyx_post handle_inbound_message
logged-messages = refl

telnyx_post-Logged_example :
    ((¬ IsSigned outside directory verify (codes "key") signed)
      × (logged.0 ≡ invalid_signature)
      × (logged.1 ≡ hooks))
    ⊎ (IsSigned outside directory verify (codes "key") signed
        × Logged outside directory (dict_or_empty signed.json) hooks logged.0 logged.1)
telnyx_post-Logged_example =
    telnyx_post-Logged outside directory verify (codes "key") signed hooks logged.1 logged.0
      signed-runs

abbrev company : Tenant
company = record {
  id = 1;
  freeswitch_tenant_uuid = 11;
  tenant_code = codes "acme";
  tenant_name = codes "Acme";
  encrypted_api_key = [];
  features = (codes "messaging", true) ∷ [];
  sip_domain = [];
  is_active = true;
  telnyx_messaging_profile_id = codes "profile";
}

abbrev clerk : User
clerk = record {
  id = 8;
  tenant = some 1;
  email = codes "ann";
  password = [];
  role = admin;
  is_superuser = false;
  is_staff = false;
  is_team_lead = false;
  is_active = true;
  is_first_login = false;
  must_change_password = false;
  first_name = [];
  last_name = [];
  sip_domain = [];
  fax_boxes = [];
  features = [];
  voicemail_boxes = [];
}

abbrev to_two : SendData
to_two = record {
  did = line;
  to_numbers = codes "+15550100" ∷ codes "+15550111" ∷ [];
  body = codes "Hello";
  media_urls = [];
}

-- The provider takes a message to two numbers and names it "new".
abbrev takes : SendData → SendOutcome
takes form =
    telnyx_response
      (obj (field (codes "data") (obj (field (codes "id") (str (codes "new")) end)) end))

abbrev answered : SendResponse × Store
answered =
    or_default (send_message outside takes directory company clerk (some to_two) store)
      (invalid_request, store)

send-runs : send_message outside takes directory company clerk (some to_two) store ≡ some answered
unfolding send_message
send-runs = refl

send_message-outcome_example :
    (Refused company (some to_two) answered.0 × (answered.1 ≡ store))
    ⊎ ((form : SendData) × Allowed company (some to_two) form
        × Sent outside takes directory company clerk store form answered.0 answered.1)
send_message-outcome_example =
    send_message-outcome outside takes directory company clerk store (some to_two) answered.0
      answered.1 store-IsSound send-runs

abbrev read_store : Store
read_store = or_default (mark_read 1 8 3 40 store) store

read-runs : mark_read 1 8 3 40 store ≡ some read_store
unfolding mark_read
read-runs = refl

is_unread-mark_read_example : is_unread read_store.read_states clerk.id thread ≡ (
    if thread.id == 3 && clerk.id == 8
    then later_than thread.last_message_at 40
    else is_unread store.read_states clerk.id thread)
is_unread-mark_read_example =
    is_unread-mark_read 1 8 3 40 store read_store read-runs clerk.id thread

-- A message is received, then one is sent.
abbrev answered_later : SendResponse × Store
answered_later =
    or_default (send_message outside takes directory company clerk (some to_two) logged.1.store)
      (invalid_request, store)

send_later-runs :
    send_message outside takes directory company clerk (some to_two) logged.1.store
    ≡ some answered_later
unfolding send_message telnyx_post
send_later-runs = refl

two_steps : Reach hooks (record logged.1 { store = answered_later.1 })
two_steps =
    next
      (next here
        (webhook outside directory verify (codes "key") signed logged.0 hooks logged.1 signed-runs))
      (send outside takes directory company clerk (some to_two) answered_later.0 logged.1
        answered_later.1 send_later-runs)

store-IsFiled : IsFiled store
store-IsFiled = record {
  each = λ m i. elim i [ inl e ↦ rw e (thread, inl refl, refl, refl, refl) | inr e ↦ absurd e ];
  settled = λ m i e. elim i [
    | inl q ↦ absurd (cc (e, ap (λ (x : Message). x.status) q))
    | inr q ↦ absurd q
  ];
}

Reach-IsFiled_example : IsFiled answered_later.1
Reach-IsFiled_example = Reach-IsFiled store-IsSound store-IsFiled two_steps
