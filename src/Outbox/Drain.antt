-- ===== src/Outbox/Drain.antt =====
-- Repeated runs of the worker (apps/outbox/tasks.py, which the scheduler starts every two seconds).
use mathlib.Core.Path.{subst}
use unified_communication_ba.Common.{
  ℕ, zero, suc, ◌-◌, ◌*◌, ◌≤◌, ◌≡◌, refl, sym, ap, ◌∙◌, Bool, true, false, not, ◌&&◌, List, [], ◌∷◌,
  map, nat_eq, nat_beq_iff, select, contains, length, Distinct, insert_by, sort_by, order_by, take,
  leb, arith,
}
use unified_communication_ba.Outbox.Defs.{
  OutboxEvent, is_pending, batch_size, batch, dispatch_pending_outbox_events,
}
use unified_communication_ba.Outbox.Run.{settle, dispatch_pending_outbox_events-settle}

abbrev pub pending_count : List OutboxEvent → ℕ
pending_count events = length (select (λ (e : OutboxEvent). is_pending e.status) events)

abbrev pub ids : List OutboxEvent → List ℕ
ids = map (λ (e : OutboxEvent). e.id)

abbrev outside : List ℕ → OutboxEvent → Bool
outside ks e = not (contains ks e.id)

module _ (p q : OutboxEvent → Bool) where
  length-select_both :
      (xs : List OutboxEvent)
      → length (select (λ x. p x && q x) xs) ≡ length (select q (select p xs))
  unfolding select
  length-select_both [] = refl
  length-select_both (x ∷ xs) = ground (arith, length-select_both xs)

  contains-ids-select :
      (k : ℕ) (xs : List OutboxEvent)
      → contains (ids xs) k ≡ false
      → contains (ids (select p xs)) k ≡ false
  unfolding select contains
  contains-ids-select k [] h = refl
  contains-ids-select k (x ∷ xs) h = ground (arith, contains-ids-select k xs)

  select-Distinct : (xs : List OutboxEvent) → Distinct (ids xs) → Distinct (ids (select p xs))
  unfolding select
  select-Distinct [] d = tt
  select-Distinct (x ∷ xs) d = ground (arith, select-Distinct xs, contains-ids-select x.id xs)

module _ (before : OutboxEvent → OutboxEvent → Bool) where
  length-insert_by :
      (q : OutboxEvent → Bool) (a : OutboxEvent) (xs : List OutboxEvent)
      → length (select q (insert_by before a xs)) ≡ length (select q (a ∷ xs))
  unfolding select insert_by
  length-insert_by q a [] = refl
  length-insert_by q a (x ∷ xs) = ground (arith, length-insert_by q a xs)

  length-sort_by :
      (q : OutboxEvent → Bool) (xs : List OutboxEvent)
      → length (select q (sort_by before xs)) ≡ length (select q xs)
  unfolding sort_by select
  length-sort_by q [] = refl
  length-sort_by q (x ∷ xs) =
      length-insert_by q x (sort_by before xs) ∙ ground (arith, length-sort_by q xs)

  contains-insert_by :
      (k : ℕ) (a : OutboxEvent) (xs : List OutboxEvent)
      → contains (ids (insert_by before a xs)) k ≡ contains (ids (a ∷ xs)) k
  unfolding insert_by contains
  contains-insert_by k a [] = refl
  contains-insert_by k a (x ∷ xs) = ground (arith, contains-insert_by k a xs)

  contains-sort_by :
      (k : ℕ) (xs : List OutboxEvent) → contains (ids (sort_by before xs)) k ≡ contains (ids xs) k
  unfolding sort_by contains
  contains-sort_by k [] = refl
  contains-sort_by k (x ∷ xs) =
      contains-insert_by k x (sort_by before xs) ∙ ground (arith, contains-sort_by k xs)

  insert_by-Distinct :
      (a : OutboxEvent) (xs : List OutboxEvent)
      → Distinct (ids (a ∷ xs))
      → Distinct (ids (insert_by before a xs))
  unfolding insert_by contains
  insert_by-Distinct a [] d = d
  insert_by-Distinct a (x ∷ xs) d = ground (
    arith,
    insert_by-Distinct a xs,
    contains-insert_by x.id a xs,
    nat_beq_iff x.id a.id,
    nat_beq_iff a.id x.id,
  )

  sort_by-Distinct :
      (xs : List OutboxEvent) → Distinct (ids xs) → Distinct (ids (sort_by before xs))
  unfolding sort_by
  sort_by-Distinct [] d = tt
  sort_by-Distinct (x ∷ xs) d =
      insert_by-Distinct x (sort_by before xs)
        (contains-sort_by x.id xs ∙ d.0, sort_by-Distinct xs d.1)

length-select_all : (xs : List OutboxEvent) → length (select (λ x. true) xs) ≡ length xs
unfolding select
length-select_all [] = refl
length-select_all (x ∷ xs) = ground (arith, length-select_all xs)

outside-cons :
    (k : ℕ) (ks : List ℕ) (xs : List OutboxEvent)
    → contains (ids xs) k ≡ false
    → length (select (outside (k ∷ ks)) xs) ≡ length (select (outside ks) xs)
unfolding select contains
outside-cons k ks [] h = refl
outside-cons k ks (x ∷ xs) h =
    ground (arith, outside-cons k ks xs, nat_beq_iff x.id k, nat_beq_iff k x.id)

outside-head :
    (x : OutboxEvent) (ks : List ℕ) (xs : List OutboxEvent)
    → select (outside (x.id ∷ ks)) (x ∷ xs) ≡ select (outside (x.id ∷ ks)) xs
unfolding select contains
outside-head x ks xs = ground (arith, nat_beq_iff x.id x.id)

select-outside_nil : (xs : List OutboxEvent) → length (select (outside []) xs) ≡ length xs
unfolding select contains
select-outside_nil [] = refl
select-outside_nil (x ∷ xs) = ground (arith, select-outside_nil xs)

length-outside-take :
    (n : ℕ) (xs : List OutboxEvent)
    → Distinct (ids xs)
    → length (select (outside (ids (take n xs))) xs) ≡ length xs - n
length-outside-take zero xs d = select-outside_nil xs ∙ omega arith
length-outside-take (suc n) [] d = unfold select in omega arith
length-outside-take (suc n) (x ∷ xs) d =
    ap length (outside-head x (ids (take n xs)) xs)
    ∙ outside-cons x.id (ids (take n xs)) xs d.0
    ∙ length-outside-take n xs d.1
    ∙ omega arith

module _ (delivers : ℕ → Bool) (now : ℕ → ℕ) where
  pending_count-settle :
      (es xs : List OutboxEvent)
      → pending_count (map (settle delivers now es) xs)
        ≡ length (select (λ (x : OutboxEvent). is_pending x.status && outside (ids es) x) xs)
  unfolding select settle is_pending
  pending_count-settle es [] = refl
  pending_count-settle es (x ∷ xs) = ground (arith, pending_count-settle es xs)

  -- Where the ids are distinct, a run settles the whole batch: of the pending events, it leaves all but
  -- the first 500.
  pub pending_count-dispatch_pending_outbox_events :
      (events : List OutboxEvent)
      → Distinct (ids events)
      → pending_count (dispatch_pending_outbox_events delivers now events).events
        ≡ pending_count events - batch_size
  pending_count-dispatch_pending_outbox_events events d =
      let p = λ (e : OutboxEvent). is_pending e.status in
      let before = λ (a x : OutboxEvent). leb a.created_at x.created_at in
      let waiting = sort_by before (select p events) in
      let q = outside (ids (take batch_size waiting)) in
      let b : batch events ≡ take batch_size waiting = unfold batch order_by in refl in
      let n : length waiting ≡ pending_count events =
        sym (length-select_all waiting)
        ∙ length-sort_by before (λ (x : OutboxEvent). true) (select p events)
        ∙ length-select_all (select p events) in
      let r = dispatch_pending_outbox_events-settle delivers now events in
      ap pending_count (r.0)
      ∙ pending_count-settle (batch events) events
      ∙ ap
          (λ (es : List OutboxEvent).
            length (select (λ (x : OutboxEvent). p x && outside (ids es) x) events))
          b
      ∙ length-select_both p q events
      ∙ sym (length-sort_by before q (select p events))
      ∙ length-outside-take batch_size waiting
          (sort_by-Distinct before (select p events) (select-Distinct p q events d))
      ∙ ap (λ (k : ℕ). k - batch_size) n

  ids-settle : (es xs : List OutboxEvent) → ids (map (settle delivers now es) xs) ≡ ids xs
  unfolding settle
  ids-settle es [] = refl
  ids-settle es (x ∷ xs) = ground (arith, ids-settle es xs)

  ids-dispatch_pending_outbox_events :
      (events : List OutboxEvent)
      → ids (dispatch_pending_outbox_events delivers now events).events ≡ ids events
  ids-dispatch_pending_outbox_events events =
      ap ids (dispatch_pending_outbox_events-settle delivers now events).0
      ∙ ids-settle (batch events) events

-- One run after the other, each with its own clock and luck with the channel layer.
unfoldable pub run_times : (ℕ → ℕ → Bool) → (ℕ → ℕ → ℕ) → ℕ → List OutboxEvent → List OutboxEvent
unfolding dispatch_pending_outbox_events
run_times delivers now zero events = events
run_times delivers now (suc k) events =
    run_times delivers now k (dispatch_pending_outbox_events (delivers k) (now k) events).events

-- Where the ids are distinct, enough runs of the worker leave no event pending: one run for every 500
-- events that are pending, whatever the channel layer does with their messages.
pub pending_count-run_times :
    (delivers : ℕ → ℕ → Bool) (now : ℕ → ℕ → ℕ) (k : ℕ) (events : List OutboxEvent)
    → Distinct (ids events)
    → pending_count events ≤ k * batch_size
    → pending_count (run_times delivers now k events) ≡ 0
unfolding run_times
pending_count-run_times delivers now zero events d h = omega arith
pending_count-run_times delivers now (suc k) events d h =
    let c = pending_count-dispatch_pending_outbox_events (delivers k) (now k) events d in
    let i = ids-dispatch_pending_outbox_events (delivers k) (now k) events in
    pending_count-run_times delivers now k
      (dispatch_pending_outbox_events (delivers k) (now k) events).events (subst Distinct (sym i) d)
      (omega arith)
