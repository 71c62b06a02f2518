-- ===== src/Outbox/Defs.antt =====
-- apps/outbox/models.py and apps/outbox/tasks.py: the event table and one run of the worker. What the
-- channel layer does with a message is a parameter: `delivers` says for which event ids `group_send`
-- returns, `now` is the clock when the event with that id is marked.
use unified_communication_ba.Common.{
  ℕ, ◌+◌, Bool, true, false, Option, some, List, [], ◌∷◌, ◌++◌, Text, codes, ◌==◌, nat_eq,
  if◌then◌else◌, select, update_where, order_by, take,
}
use unified_communication_ba.Json.{Json}

pub data OutboxEventStatus : Type 0 where
  pending dispatched failed : OutboxEventStatus

pub data OutboxTargetType : Type 0 where
  user tenant conversation : OutboxTargetType

pub record OutboxEvent : Type 0 where
  pub id : ℕ
  pub tenant_id : ℕ
  pub target_type : OutboxTargetType
  pub target_id : Text
  pub event_type : Text
  pub payload : Json
  pub created_at : ℕ
  pub dispatched_at : Option ℕ
  pub status : OutboxEventStatus

-- A message to a group of the channel layer; its `type` is always "outbox.event".
pub record Message : Type 0 where
  pub group_name : Text
  pub event_type : Text
  pub payload : Json

unfoldable pub target_name : OutboxTargetType → Text
target_name user = codes "user"
target_name tenant = codes "tenant"
target_name conversation = codes "conversation"

-- `f"{event.target_type}.{event.target_id}"`
unfoldable pub group_name : OutboxEvent → Text
unfolding target_name
group_name e = target_name e.target_type ++ codes "." ++ e.target_id

unfoldable pub message_of : OutboxEvent → Message
unfolding group_name
message_of e = record { group_name = group_name e; event_type = e.event_type; payload = e.payload }

unfoldable pub is_pending : OutboxEventStatus → Bool
is_pending pending = true
is_pending dispatched = false
is_pending failed = false

abbrev pub batch_size : ℕ
batch_size = 500

-- `filter(status=PENDING).order_by("created_at")[:BATCH_SIZE]`
unfoldable pub batch : List OutboxEvent → List OutboxEvent
unfolding is_pending select order_by
batch events = take batch_size (
    order_by (λ (e : OutboxEvent). e.created_at)
      (select (λ (e : OutboxEvent). is_pending e.status) events))

-- The table, the messages published and the count, while a run goes on.
pub record RunState : Type 0 where
  pub events : List OutboxEvent
  pub sent : List Message
  pub dispatched_count : ℕ

module _ (delivers : ℕ → Bool) (now : ℕ → ℕ) where
  -- the `update(...)` of one row: failed, or dispatched and when
  unfoldable pub mark : OutboxEvent → OutboxEvent
  mark e =
      if delivers e.id
      then record e { status = dispatched; dispatched_at = some (now e.id) }
      else record e { status = failed }

  -- one round of the loop
  unfoldable pub dispatch_one : OutboxEvent → RunState → RunState
  unfolding update_where message_of mark
  dispatch_one e r =
      let events = update_where (λ (x : OutboxEvent). x.id == e.id) mark r.events in
      if delivers e.id
      then record {
        events = events;
        sent = r.sent ++ message_of e ∷ [];
        dispatched_count = r.dispatched_count + 1;
      }
      else record { events = events; sent = r.sent; dispatched_count = r.dispatched_count }

  unfoldable pub dispatch_all : List OutboxEvent → RunState → RunState
  unfolding dispatch_one
  dispatch_all [] r = r
  dispatch_all (e ∷ es) r = dispatch_all es (dispatch_one e r)

  -- `dispatch_pending_outbox_events`, with a channel layer
  unfoldable pub dispatch_pending_outbox_events : List OutboxEvent → RunState
  unfolding batch dispatch_all
  dispatch_pending_outbox_events events =
      dispatch_all (batch events) (record { events = events; sent = []; dispatched_count = 0 })
