-- ===== src/Webhooks/Telnyx/Updated.antt =====
-- `_handle_status_update` (apps/webhooks/views.py): which message changes, and how.
use mathlib.Core.Path.{subst}
use mathlib.Core.Option.{some-injective}
use unified_communication_ba.Common.{
  ℕ, ◌≡◌, ◌⊎◌, inl, inr, refl, sym, ap, true, false, ◌||◌, Option, none, some, codes, ◌==◌, nat_eq,
  list_eq, option_eq, update_where, arith, first, first-In, first-none, In, Bool-cases,
  Option-cases,
}
use unified_communication_ba.Json.{Json, Fields, get_or_null, truthy}
use unified_communication_ba.Messaging.{
  Message, sent, delivered, failed, Store, Outside, id_text, save_message,
}
use unified_communication_ba.Messaging.Saved.{save_message-some}
use unified_communication_ba.Messaging.Sound.{IsSound, save_message-IsSound}
use unified_communication_ba.Webhooks.Telnyx.Status.{
  first_of, status_of, is_status, with_error, with_status, apply_errors, apply_status,
  updated_message, save_updated, save_found, has_id, handle_status_update,
}

-- The state of delivery that the event reports, by its errors and the status `s` in it.
abbrev pub Reported : ℕ → Json → Json → Message → Message → Type 0
Reported now errors s m m' =
    ((truthy errors ≡ true) × (m'.status ≡ failed))
    ⊎ ((truthy errors ≡ false)
        × (((is_status (codes "delivered") s ≡ true)
              × (m'.status ≡ delivered)
              × (m'.delivered_at ≡ some now))
            ⊎ (((is_status (codes "sent") s ≡ true) × (m'.status ≡ sent))
                ⊎ ((((is_status (codes "sending_failed") s || is_status (codes "delivery_failed") s)
                        ≡ true)
                      × (m'.status ≡ failed))
                    ⊎ (((is_status (codes "delivered") s
                            || is_status (codes "sent") s
                            || is_status (codes "sending_failed") s
                            || is_status (codes "delivery_failed") s)
                          ≡ false)
                        × (m' ≡ m))))))

-- The message with another state of delivery and nothing else.
pub record OnlyState (now : ℕ) (errors s : Json) (m m' : Message) : Type 0 where
  pub rest : m' ≡ record m {
    status = m'.status;
    error_code = m'.error_code;
    error_detail = m'.error_detail;
    delivered_at = m'.delivered_at;
  }
  pub state : Reported now errors s m m'

module _ (w : Outside) (m : Message) where
  without_errors-OnlyState :
      (errors s : Json) → truthy errors ≡ false → OnlyState w.now errors s m (with_status w m s)
  unfolding with_status
  without_errors-OnlyState errors s n = elim (Bool-cases (is_status (codes "delivered") s)) [
    | inl e ↦ rw e (record { rest = refl; state = inr (n, inl (e, refl, refl)) })
    | inr e ↦ elim (Bool-cases (is_status (codes "sent") s)) [
      | inl f ↦ rw (e, f) (record { rest = refl; state = inr (n, inr (inl (f, refl))) })
      | inr f ↦
          elim (Bool-cases
            (is_status (codes "sending_failed") s || is_status (codes "delivery_failed") s)) [
              | inl g ↦
                  rw (e, f, g) (record { rest = refl; state = inr (n, inr (inr (inl (g, refl)))) })
              | inr g ↦
                  rw (e, f, g)
                    (record {
                      rest = refl;
                      state = inr (n, inr (inr (inr (ground (arith, e, f, g), refl))));
                    })
            ]
    ]
  ]

  with_error-OnlyState :
      (errors s : Json) (e : Fields)
      → truthy errors ≡ true
      → OnlyState w.now errors s m (with_error w m e)
  unfolding with_error
  with_error-OnlyState errors s e n = record { rest = refl; state = inl (n, refl) }

  apply_errors-OnlyState :
      (errors s : Json) (m' : Message)
      → apply_errors w m errors s ≡ some m'
      → OnlyState w.now errors s m m'
  apply_errors-OnlyState errors s m' h = elim (Bool-cases (truthy errors)) [
    | inr e ↦
        subst (OnlyState w.now errors s m) (some-injective _ _ (rw e at h))
          (without_errors-OnlyState errors s e)
    | inl e ↦ elim (Option-cases (first_of errors)) [
      | inl f ↦ let q = rw (e, f) at h in absurd cc
      | inr (x, f) ↦
          subst (OnlyState w.now errors s m) (some-injective _ _ (rw (e, f) at h))
            (with_error-OnlyState errors s x e)
    ]
  ]

module _ (w : Outside) (p : Fields) where
  -- The row that an event changes, and its new state.
  pub record Updated (s s' : Store) : Type 0 where
    pub message : Message
    pub message' : Message
    pub status : Json
    pub stored : In message s.messages
    pub named : has_id (id_text w.repr (get_or_null (codes "id") p)) message ≡ true
    pub reported : status_of p ≡ some status
    pub only_state : OnlyState w.now (get_or_null (codes "errors") p) status message message'
    pub saved : save_message message' s ≡ some s'

  apply_status-Updated :
      (m : Message) (o : Option Json) (s s' : Store)
      → In m s.messages
      → has_id (id_text w.repr (get_or_null (codes "id") p)) m ≡ true
      → status_of p ≡ o
      → save_updated (apply_status w m p o) s ≡ some s'
      → Updated s s'
  apply_status-Updated m none s s' i n e h = absurd cc
  apply_status-Updated m (some j) s s' i n e h =
      let errors = get_or_null (codes "errors") p in
      elim (Option-cases (apply_errors w m errors j)) [
        | inl f ↦ let q = rw f at h in absurd cc
        | inr (m', f) ↦ record {
          message = m;
          message' = m';
          status = j;
          stored = i;
          named = n;
          reported = e;
          only_state = apply_errors-OnlyState w m errors j m' f;
          saved = rw f at h;
        }
      ]

  -- The event names no id, or none of a stored message.
  abbrev pub Unknown : Store → Type 0
  Unknown s =
      (truthy (get_or_null (codes "id") p) ≡ false)
      ⊎ ((m : Message)
          → In m s.messages
          → has_id (id_text w.repr (get_or_null (codes "id") p)) m ≡ false)

  save_found-Updated :
      (o : Option Message) (s s' : Store)
      → first (has_id (id_text w.repr (get_or_null (codes "id") p))) s.messages ≡ o
      → save_found w p o s ≡ some s'
      → ((s' ≡ s) × Unknown s) ⊎ Updated s s'
  unfolding updated_message
  save_found-Updated none s s' e h = inl (
    sym (some-injective _ _ h),
    inr (λ m i. first-none (has_id (id_text w.repr (get_or_null (codes "id") p))) m s.messages e i),
  )
  save_found-Updated (some m) s s' e h =
      let (i, n) = first-In (has_id (id_text w.repr (get_or_null (codes "id") p))) m s.messages e in
      inr (apply_status-Updated m (status_of p) s s' i n refl h)

  handle_status_update-cases :
      (s s' : Store) → handle_status_update w p s ≡ some s' → ((s' ≡ s) × Unknown s) ⊎ Updated s s'
  unfolding handle_status_update
  handle_status_update-cases s s' h = elim (Bool-cases (truthy (get_or_null (codes "id") p))) [
    | inl e ↦ save_found-Updated _ s s' refl (rw e at h)
    | inr e ↦ inl (sym (some-injective _ _ (rw e at h)), inl e)
  ]

  -- The report of a delivery that the view does not fail on changes nothing, and names no id of a stored
  -- message; or it changes exactly the stored message with the id that it names, and of that only the state of
  -- delivery: it is failed where errors are reported, else delivered, at this time, or sent, or failed as
  -- reported, and as it was only where the status is none of these.
  pub handle_status_update-OnlyState :
      (s s' : Store)
      → handle_status_update w p s ≡ some s'
      → ((s' ≡ s) × Unknown s)
        ⊎ ((u : Updated s s') × (s' ≡ record s {
          messages =
              update_where (λ (x : Message). x.id == u.message'.id) (λ _. u.message') s.messages;
        }))
  handle_status_update-OnlyState s s' h = elim (handle_status_update-cases s s' h) [
    | inl e ↦ inl e
    | inr u ↦ inr (u, save_message-some u.message' s s' u.saved)
  ]

  pub handle_status_update-IsSound :
      (s s' : Store) → handle_status_update w p s ≡ some s' → IsSound s → IsSound s'
  handle_status_update-IsSound s s' h sound = elim (handle_status_update-cases s s' h) [
    | inl (e, unknown) ↦ subst IsSound (sym e) sound
    | inr u ↦
        save_message-IsSound u.message' s sound s' u.message u.saved u.stored
          (ap (λ (m : Message). m.id) (sym u.only_state.rest))
  ]
