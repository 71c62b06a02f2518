-- ===== src/Outbox/Once.antt =====
-- The worker (apps/outbox/tasks.py): which events a run touches.
use mathlib.Core.Path.{subst}
use unified_communication_ba.Common.{
  ℕ, ◌≡◌, sym, Bool, true, false, List, map, contains, contains_iff, In, In-map, map-In, In-take,
  In-order_by, In-select, Distinct, Distinct-key, nat_eq, arith, Bool-cases, inl, inr, select,
  order_by,
}
use unified_communication_ba.Outbox.Defs.{
  OutboxEvent, Message, message_of, is_pending, batch_size, batch, dispatch_pending_outbox_events,
}
use unified_communication_ba.Outbox.Run.{settle, published, dispatch_pending_outbox_events-settle}

-- The batch holds rows of the table that are pending.
pub In-batch :
    (e : OutboxEvent) (events : List OutboxEvent)
    → In e (batch events)
    → In e events × (is_pending e.status ≡ true)
unfolding batch
In-batch e events i =
    let p = λ (x : OutboxEvent). is_pending x.status in
    let key = λ (x : OutboxEvent). x.created_at in
    (In-select p e events).0 (
      (In-order_by key e (select p events)).0
        (In-take batch_size e (order_by key (select p events)) i))

-- In a table whose ids are distinct, a row that is not pending is not marked by a run.
pub settle-not_pending :
    (delivers : ℕ → Bool) (now : ℕ → ℕ) (events : List OutboxEvent) (x : OutboxEvent)
    → Distinct (map (λ (e : OutboxEvent). e.id) events)
    → In x events
    → is_pending x.status ≡ false
    → settle delivers now (batch events) x ≡ x
unfolding settle
settle-not_pending delivers now events x d i h =
    elim (Bool-cases (contains (map (λ (e : OutboxEvent). e.id) (batch events)) x.id)) [
      | inr c ↦ ground arith
      | inl c ↦
          let key = λ (e : OutboxEvent). e.id in
          let (e, j, q) =
            In-map key x.id (batch events) ((contains_iff (map key (batch events)) x.id).0 c) in
          let (k, p) = In-batch e events j in
          let same : e ≡ x = Distinct-key key events e x d k i (sym q) in absurd (cc (p, h, same))
    ]

-- In a table whose ids are distinct, an event that has been dispatched or has failed is still there, the
-- same in every column, after a run.
pub dispatch_pending_outbox_events-keeps :
    (delivers : ℕ → Bool) (now : ℕ → ℕ) (events : List OutboxEvent) (x : OutboxEvent)
    → Distinct (map (λ (e : OutboxEvent). e.id) events)
    → In x events
    → is_pending x.status ≡ false
    → In x (dispatch_pending_outbox_events delivers now events).events
dispatch_pending_outbox_events-keeps delivers now events x d i h =
    let f = settle delivers now (batch events) in
    let j : In (f x) (map f events) = map-In f x events i in
    rw ((dispatch_pending_outbox_events-settle delivers now events).0) (
      subst (λ (y : OutboxEvent). In y (map f events))
        (settle-not_pending delivers now events x d i h) j)

-- What a run publishes comes from events that were pending when it began.
pub dispatch_pending_outbox_events-pending :
    (delivers : ℕ → Bool) (now : ℕ → ℕ) (events : List OutboxEvent) (m : Message)
    → In m (dispatch_pending_outbox_events delivers now events).sent
    → (e : OutboxEvent) × In e events
      × (is_pending e.status ≡ true)
      × (delivers e.id ≡ true)
      × (m ≡ message_of e)
unfolding published
dispatch_pending_outbox_events-pending delivers now events m i =
    let j = rw ((dispatch_pending_outbox_events-settle delivers now events).1) at i in
    let (e, k, q) =
      In-map message_of m (select (λ (e : OutboxEvent). delivers e.id) (batch events)) j in
    let (l, d) = (In-select (λ (e : OutboxEvent). delivers e.id) e (batch events)).0 k in
    let (n, p) = In-batch e events l in (e, n, p, d, q)
