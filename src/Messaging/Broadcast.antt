-- ===== src/Messaging/Broadcast.antt =====
-- apps/messaging/services.py, `broadcast_message_event`, with the fields of apps/messaging/serializers.py,
-- `MessageSerializer`.
use unified_communication_ba.Common.{
  ℕ, ◌+◌, Option, none, some, List, [], ◌∷◌, ◌++◌, map, Text, codes, ◌==◌, nat_eq, select, dedupe,
  length,
}
use unified_communication_ba.Json.{
  Json, null, int, str, arr, obj, Items, nil, cons, end, field, pos,
}
use unified_communication_ba.Models.{UserDid}
use unified_communication_ba.Outbox.{OutboxEvent, pending, conversation, user}
use unified_communication_ba.Messaging.Defs.{
  Message, MessageDirection, inbound, outbound, MessageStatus, queued, sent, delivered, failed,
  received, Media, Store, Directory, Outside,
}

abbrev pub direction_text : MessageDirection → Text
direction_text inbound = codes "inbound"
direction_text outbound = codes "outbound"

abbrev pub status_text : MessageStatus → Text
status_text queued = codes "queued"
status_text sent = codes "sent"
status_text delivered = codes "delivered"
status_text failed = codes "failed"
status_text received = codes "received"

abbrev pub text_or_null : Option Text → Json
text_or_null none = null
text_or_null (some s) = str s

abbrev pub map_or_null : (ℕ → Text) → Option ℕ → Json
map_or_null f none = null
map_or_null f (some n) = str (f n)

-- `MessageMediaSerializer`
abbrev pub media_fields : Outside → Media → Json
media_fields w m = obj (
    field (codes "id") (str (w.uuid_text m.id)) (
      field (codes "url") (str (codes "/api/v1/messaging/media/" ++ w.uuid_text m.id ++ codes "/"))
        (field (codes "content_type") (str m.content_type)
          (field (codes "size_bytes") (int (pos m.size_bytes)) end))))

unfoldable pub media_items : Outside → List Media → Items
media_items w [] = nil
media_items w (m ∷ ms) = cons (media_fields w m) (media_items w ms)

-- `json.loads(json.dumps(MessageSerializer(message).data, default=str))`
unfoldable pub message_payload : Outside → List Media → Message → Json
unfolding media_items select
message_payload w media m = obj (
    field (codes "id") (str (w.uuid_text m.id)) (
      field (codes "conversation") (str (w.uuid_text m.conversation)) (
        field (codes "tenant") (str (w.uuid_text m.tenant)) (
          field (codes "did") (str (w.uuid_text m.did)) (
            field (codes "user") (map_or_null w.uuid_text m.user) (
              field (codes "direction") (str (direction_text m.direction)) (
                field (codes "from_number") (str m.from_number) (
                  field (codes "body") (str m.body) (
                    field (codes "media_urls")
                      (arr (media_items w (select (λ (f : Media). f.message == m.id) media)))
                      (field (codes "telnyx_message_id") (text_or_null m.telnyx_message_id) (
                        field (codes "status") (str (status_text m.status)) (
                          field (codes "error_code") (text_or_null m.error_code) (
                            field (codes "error_detail") (text_or_null m.error_detail) (
                              field (codes "sent_at") (map_or_null w.time_text m.sent_at) (
                                field (codes "delivered_at")
                                  (map_or_null w.time_text m.delivered_at)
                                  (field (codes "created_at") (str (w.time_text m.created_at))
                                    end))))))))))))))))

-- The event to the open thread.
unfoldable pub thread_event : Outside → Message → Json → ℕ → OutboxEvent
thread_event w m payload id = record {
  id = id;
  tenant_id = m.tenant;
  target_type = conversation;
  target_id = w.uuid_text m.conversation;
  event_type = codes "message.created";
  payload = payload;
  created_at = w.now;
  dispatched_at = none;
  status = pending;
}

-- The event to the feed of a user.
unfoldable pub user_event : Outside → Message → Json → ℕ → ℕ → OutboxEvent
user_event w m payload owner id = record {
  id = id;
  tenant_id = m.tenant;
  target_type = user;
  target_id = w.uuid_text owner;
  event_type = codes "message.created";
  payload = payload;
  created_at = w.now;
  dispatched_at = none;
  status = pending;
}

-- `set(user_ids)`, in some order
unfoldable pub user_ids : List UserDid → ℕ → List ℕ
unfolding select dedupe
user_ids user_dids did =
    dedupe (map (λ (a : UserDid). a.user) (select (λ (a : UserDid). a.did == did) user_dids))

unfoldable pub user_events : Outside → Message → Json → List ℕ → ℕ → List OutboxEvent
unfolding user_event
user_events w m payload [] id = []
user_events w m payload (u ∷ us) id =
    user_event w m payload u id ∷ user_events w m payload us (id + 1)

unfoldable pub broadcast_message_event : Outside → Directory → Message → Store → Store
unfolding message_payload thread_event user_events user_ids
broadcast_message_event w d m s =
    let payload = message_payload w s.media m in
    let users = user_ids d.user_dids m.did in
    record s {
      events =
          s.events
          ++ thread_event w m payload s.next_id ∷ user_events w m payload users (s.next_id + 1);
      next_id = s.next_id + 1 + length users;
    }
