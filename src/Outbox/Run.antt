-- ===== src/Outbox/Run.antt =====
-- One run of the worker as a whole: which rows change and how, what is published.
use unified_communication_ba.Common.{
  ℕ, ◌+◌, ◌≡◌, refl, sym, ap, ◌∙◌, Bool, some, List, [], ◌∷◌, ◌++◌, map, ◌==◌, nat_eq,
  if◌then◌else◌, select, update_where, contains, length, arith, Bool-cases, inl, inr,
}
use mathlib.Core.List.{append_assoc, append-nil}
use unified_communication_ba.Outbox.Defs.{
  OutboxEvent, dispatched, failed, Message, RunState, message_of, batch, mark, dispatch_one,
  dispatch_all, dispatch_pending_outbox_events,
}

module _ (delivers : ℕ → Bool) (now : ℕ → ℕ) where
  -- A row whose id is in the batch is dispatched at its time, or failed; any other row stays.
  unfoldable pub settle : List OutboxEvent → OutboxEvent → OutboxEvent
  settle es x =
      if contains (map (λ (e : OutboxEvent). e.id) es) x.id
      then if delivers x.id
        then record x { status = dispatched; dispatched_at = some (now x.id) }
        else record x { status = failed }
      else x

  id-mark : (x : OutboxEvent) → (mark delivers now x).id ≡ x.id
  unfolding mark
  id-mark x = ground arith

  settle-cons :
      (e : OutboxEvent) (es : List OutboxEvent) (x : OutboxEvent)
      → settle es (if x.id == e.id then mark delivers now x else x) ≡ settle (e ∷ es) x
  unfolding settle contains mark
  settle-cons e es x = ground (arith, id-mark x)

  map-settle :
      (e : OutboxEvent) (es xs : List OutboxEvent)
      → map (settle es) (update_where (λ (x : OutboxEvent). x.id == e.id) (mark delivers now) xs)
        ≡ map (settle (e ∷ es)) xs
  unfolding update_where
  map-settle e es [] = refl
  map-settle e es (x ∷ xs) = cc (settle-cons e es x, map-settle e es xs)

  map-settle_nil : (xs : List OutboxEvent) → map (settle []) xs ≡ xs
  unfolding settle contains
  map-settle_nil [] = refl
  map-settle_nil (x ∷ xs) = cc (map-settle_nil xs)

  events-dispatch_one :
      (e : OutboxEvent) (r : RunState)
      → (dispatch_one delivers now e r).events
        ≡ update_where (λ (x : OutboxEvent). x.id == e.id) (mark delivers now) r.events
  unfolding dispatch_one
  events-dispatch_one e r = ground arith

  events-dispatch_all :
      (es : List OutboxEvent) (r : RunState)
      → (dispatch_all delivers now es r).events ≡ map (settle es) r.events
  unfolding dispatch_all
  events-dispatch_all [] r = sym (map-settle_nil r.events)
  events-dispatch_all (e ∷ es) r =
      events-dispatch_all es (dispatch_one delivers now e r)
      ∙ ap (map (settle es)) (events-dispatch_one e r)
      ∙ map-settle e es r.events

  -- The messages of a list of events, without those that the channel layer refuses.
  unfoldable pub published : List OutboxEvent → List Message
  published es = map message_of (select (λ (e : OutboxEvent). delivers e.id) es)

  sent-dispatch_one :
      (e : OutboxEvent) (r : RunState)
      → (dispatch_one delivers now e r).sent ≡ r.sent ++ published (e ∷ [])
  unfolding dispatch_one published select
  sent-dispatch_one e r = elim (Bool-cases (delivers e.id)) [
    | inl h ↦ rw h refl
    | inr h ↦ rw h (sym (append-nil r.sent))
  ]

  published-cons :
      (e : OutboxEvent) (es : List OutboxEvent)
      → published (e ∷ es) ≡ published (e ∷ []) ++ published es
  unfolding published select
  published-cons e es = ground arith

  sent-dispatch_all :
      (es : List OutboxEvent) (r : RunState)
      → (dispatch_all delivers now es r).sent ≡ r.sent ++ published es
  unfolding dispatch_all
  sent-dispatch_all [] r = unfold published select in sym (append-nil r.sent)
  sent-dispatch_all (e ∷ es) r =
      sent-dispatch_all es (dispatch_one delivers now e r)
      ∙ ap (λ (l : List Message). l ++ published es) (sent-dispatch_one e r)
      ∙ append_assoc r.sent (published (e ∷ [])) (published es)
      ∙ ap (λ (l : List Message). r.sent ++ l) (sym (published-cons e es))

  count-dispatch_all :
      (es : List OutboxEvent) (r : RunState)
      → (dispatch_all delivers now es r).dispatched_count
        ≡ r.dispatched_count + length (published es)
  unfolding dispatch_all published select
  count-dispatch_all [] r = omega arith
  count-dispatch_all (e ∷ es) r =
      unfold dispatch_one in ground (arith, count-dispatch_all es (dispatch_one delivers now e r))

  -- A run marks exactly the rows whose id is in the batch, each by whether its message was delivered, and
  -- leaves every other row as it was; it publishes the messages of the batch that are delivered, in the
  -- order of the batch, and returns their number.
  pub dispatch_pending_outbox_events-settle :
      (events : List OutboxEvent)
      → ((dispatch_pending_outbox_events delivers now events).events
          ≡ map (settle (batch events)) events)
        × ((dispatch_pending_outbox_events delivers now events).sent ≡ published (batch events))
        × ((dispatch_pending_outbox_events delivers now events).dispatched_count
            ≡ length (published (batch events)))
  unfolding dispatch_pending_outbox_events
  dispatch_pending_outbox_events-settle events =
      let r : RunState = record { events = events; sent = []; dispatched_count = 0 } in
      (
        events-dispatch_all (batch events) r,
        sent-dispatch_all (batch events) r,
        omega (arith, count-dispatch_all (batch events) r),
      )
