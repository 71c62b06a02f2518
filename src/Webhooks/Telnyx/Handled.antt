-- ===== src/Webhooks/Telnyx/Handled.antt =====
-- What `TelnyxWebhookView.post` (apps/webhooks/views.py) does with an event, by its type.

use mathlib.Core.Option.{some-injective}
use unified_communication_ba.Common.{
  ◌≡◌, ◌≢◌, ◌↔◌, ◌⊎◌, nat_eq, list_eq, list_beq_iff, inl, inr, sym, ap, true, false, some, [], Text,
  codes, arith, Bool-cases,
}
use unified_communication_ba.Json.{Json, null, bool, int, float, str, arr, obj, Fields}
use unified_communication_ba.Messaging.{Store, Directory, Outside}
use unified_communication_ba.Webhooks.Telnyx.Payload.{event_of, message_of_event}
use unified_communication_ba.Webhooks.Telnyx.Status.{is_status, handle_status_update}
use unified_communication_ba.Webhooks.Telnyx.Inbound.{handle_inbound_message}
use unified_communication_ba.Webhooks.Telnyx.Post.{handle_event}

abbrev text_in : Json → Text
text_in (str s) = s
text_in null = []
text_in (bool b) = []
text_in (int n) = []
text_in (float s) = []
text_in (arr xs) = []
text_in (obj fs) = []

str-injective : (a b : Text) → ◌≡◌ {A = Json} (str a) (str b) → a ≡ b
str-injective a b h = ap text_in h

is_status_iff : (t : Text) (j : Json) → (is_status t j ≡ true) ↔ (j ≡ str t)
unfolding is_status
is_status_iff t (str s) =
    (λ e. ap str ((list_beq_iff s t).0 e), λ e. (list_beq_iff s t).1 (str-injective s t e))
is_status_iff t null = ground arith
is_status_iff t (bool b) = ground arith
is_status_iff t (int n) = ground arith
is_status_iff t (float s) = ground arith
is_status_iff t (arr xs) = ground arith
is_status_iff t (obj fs) = ground arith

not_status : (t : Text) (j : Json) → is_status t j ≡ false → j ≢ str t
not_status t j e f = let g = (is_status_iff t j).1 f in absurd cc

module _ (w : Outside) (dir : Directory) where
  -- What an event does, by its type.
  abbrev pub HandledAs : Json → Fields → Store → Store → Type 0
  HandledAs event message s s' =
      (((event ≡ str (codes "message.sent")) ⊎ (event ≡ str (codes "message.finalized")))
        × (handle_status_update w message s ≡ some s'))
      ⊎ (((event ≡ str (codes "message.received"))
            × (handle_inbound_message w dir message s ≡ some s'))
          ⊎ ((event ≢ str (codes "message.sent"))
              × (event ≢ str (codes "message.finalized"))
              × (event ≢ str (codes "message.received"))
              × (s' ≡ s)))

  pub handle_event-HandledAs :
      (p : Fields) (s s' : Store)
      → handle_event w dir p s ≡ some s'
      → HandledAs (event_of p) (message_of_event p) s s'
  unfolding handle_event
  handle_event-HandledAs p s s' h =
      elim (Bool-cases (is_status (codes "message.sent") (event_of p))) [
        | inl e ↦ inl (inl ((is_status_iff (codes "message.sent") (event_of p)).0 e), rw e at h)
        | inr e ↦ elim (Bool-cases (is_status (codes "message.finalized") (event_of p))) [
          | inl f ↦
              inl
                (inr ((is_status_iff (codes "message.finalized") (event_of p)).0 f), rw (e, f) at h)
          | inr f ↦ elim (Bool-cases (is_status (codes "message.received") (event_of p))) [
            | inl g ↦ inr (
                inl
                  ((is_status_iff (codes "message.received") (event_of p)).0 g, rw (e, f, g) at h))
            | inr g ↦ inr (
                inr (
                  not_status (codes "message.sent") (event_of p) e,
                  not_status (codes "message.finalized") (event_of p) f,
                  not_status (codes "message.received") (event_of p) g,
                  sym (some-injective _ _ (rw (e, f, g) at h)),
                ))
          ]
        ]
      ]
