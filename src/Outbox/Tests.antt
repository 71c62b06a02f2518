-- ===== src/Outbox/Tests.antt =====
-- The theorems of this folder at a table of three events, one of them dispatched before.
use unified_communication_ba.Common.{
  ℕ, ◌≡◌, refl, Bool, Option, none, some, List, [], ◌∷◌, codes, map, In, inl, length, nat_eq,
  contains, ◌==◌, not, Distinct, ◌*◌, ◌≤◌, select, arith,
}
use unified_communication_ba.Json.{null}
use unified_communication_ba.Outbox.{
  OutboxEvent, OutboxEventStatus, pending, dispatched, failed, user, is_pending, batch, batch_size,
  dispatch_pending_outbox_events,
}
use unified_communication_ba.Outbox.Run.{settle, published, dispatch_pending_outbox_events-settle}
use unified_communication_ba.Outbox.Drain.{ids, pending_count, run_times, pending_count-run_times}
use unified_communication_ba.Outbox.Once.{dispatch_pending_outbox_events-keeps}

abbrev event : ℕ → ℕ → OutboxEventStatus → Option ℕ → OutboxEvent
event n at_time s d = record {
  id = n;
  tenant_id = 1;
  target_type = user;
  target_id = codes "7";
  event_type = codes "did.updated";
  payload = null;
  created_at = at_time;
  dispatched_at = d;
  status = s;
}

abbrev events : List OutboxEvent
events = event 1 5 dispatched (some 6) ∷ event 2 9 pending none ∷ event 3 8 pending none ∷ []

-- Every message but that of event 3 is delivered; the clock stands at 10.
abbrev reaches : ℕ → Bool
reaches n = not (n == 3)

abbrev clock : ℕ → ℕ
clock n = 10

run-events :
    (dispatch_pending_outbox_events reaches clock events).events
    ≡ event 1 5 dispatched (some 6) ∷ event 2 9 dispatched (some 10) ∷ event 3 8 failed none ∷ []
unfolding dispatch_pending_outbox_events
run-events = refl

dispatch_pending_outbox_events-settle_example :
    ((dispatch_pending_outbox_events reaches clock events).events
      ≡ map (settle reaches clock (batch events)) events)
    × ((dispatch_pending_outbox_events reaches clock events).sent
        ≡ published reaches clock (batch events))
    × ((dispatch_pending_outbox_events reaches clock events).dispatched_count
        ≡ length (published reaches clock (batch events)))
dispatch_pending_outbox_events-settle_example =
    dispatch_pending_outbox_events-settle reaches clock events

dispatch_pending_outbox_events-keeps_example :
    In (event 1 5 dispatched (some 6)) (dispatch_pending_outbox_events reaches clock events).events
unfolding is_pending contains
dispatch_pending_outbox_events-keeps_example =
    dispatch_pending_outbox_events-keeps reaches clock events (event 1 5 dispatched (some 6))
      (refl, (refl, (refl, tt))) (inl refl) refl

events-Distinct : Distinct (ids events)
unfolding contains
events-Distinct = (refl, (refl, (refl, tt)))

two_pending : pending_count events ≤ 1 * batch_size
unfolding is_pending select
two_pending = omega arith

pending_count-run_times_example : pending_count (run_times (λ k. reaches) (λ k. clock) 1 events) ≡ 0
pending_count-run_times_example =
    pending_count-run_times (λ k. reaches) (λ k. clock) 1 events events-Distinct two_pending
