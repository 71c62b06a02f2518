-- ===== src/Webhooks/Telnyx/Placed.antt =====
-- Sending and receiving messages (apps/messaging/views.py, apps/webhooks/views.py): every message has its place.

use mathlib.Core.Path.{subst}
use unified_communication_ba.Common.{ℕ, ◌≡◌, ◌≢◌, sym, ap, ◌∙◌, List, inl, inr, Option, some}
use unified_communication_ba.Models.{Tenant, User}
use unified_communication_ba.Messaging.{
  Store, Message, queued, Directory, Outside, SendData, SendOutcome, http_status_error,
  request_error, telnyx_response, other_error, SendResponse, send_message,
}
use unified_communication_ba.Messaging.Sound.{IsSound}
use unified_communication_ba.Messaging.Sent.{Settled, send_message-outcome}
use unified_communication_ba.Messaging.Filing.{IsFiled, append-IsFiled, update-IsFiled}
use unified_communication_ba.Json.{Json, Fields}
use unified_communication_ba.Outbox.{OutboxEvent}
use unified_communication_ba.Webhooks.Telnyx.Status.{handle_status_update}
use unified_communication_ba.Webhooks.Telnyx.Inbound.{handle_inbound_message}
use unified_communication_ba.Webhooks.Telnyx.Updated.{Reported, handle_status_update-OnlyState}
use unified_communication_ba.Webhooks.Telnyx.Stored.{handle_inbound_message-Filed}
use unified_communication_ba.Webhooks.Telnyx.Handled.{HandledAs}

Settled-status :
    (w : Outside) (send : SendData → SendOutcome) (dir : Directory) (t : Tenant) (u : User)
    (s : Store) (o : SendOutcome) (s' : Store) (r : SendResponse) (m : Message)
    (es : List OutboxEvent)
    → Settled w send dir t u s o s'.media r m es
    → m.status ≢ queued
Settled-status w send dir t u s (http_status_error code text) s' r m es (a, b, c, d, x) e = cc
Settled-status w send dir t u s (request_error text) s' r m es (a, b, c, d, x) e = cc
Settled-status w send dir t u s (telnyx_response j) s' r m es (k, a, b, c, d, x, y) e = cc
Settled-status w send dir t u s other_error s' r m es h e = h

pub send_message-IsFiled :
    (w : Outside) (send : SendData → SendOutcome) (dir : Directory) (t : Tenant) (u : User)
    (s s' : Store) (o : Option SendData) (r : SendResponse)
    → IsSound s
    → send_message w send dir t u o s ≡ some (r, s')
    → IsFiled s
    → IsFiled s'
send_message-IsFiled w send dir t u s s' o r sound h filed =
    elim (send_message-outcome w send dir t u s o r s' sound h) [
      | inl (a, e) ↦ subst IsFiled (sym e) filed
      | inr (form, a, x) ↦
          append-IsFiled s s' x.message filed x.kept x.added x.place
            (Settled-status w send dir t u s (send form) s' r x.message x.events x.settled)
    ]

handle_inbound_message-IsFiled :
    (w : Outside) (dir : Directory) (p : Fields) (s s' : Store)
    → IsSound s
    → handle_inbound_message w dir p s ≡ some s'
    → IsFiled s
    → IsFiled s'
handle_inbound_message-IsFiled w dir p s s' sound h filed =
    elim (handle_inbound_message-Filed w dir p s s' sound h) [
      | inl (e, a) ↦ subst IsFiled (sym e) filed
      | inr (sender, n, ns, d, a, b, c, e, x) ↦
          append-IsFiled s s' x.message filed x.kept x.added
            (
              x.conversation,
              x.thread.stored,
              sym x.of_conversation,
              x.thread.of_tenant ∙ sym x.of_tenant,
              x.thread.of_did ∙ sym x.of_did,
            )
            (λ q. let g = x.status in absurd cc)
    ]

Reported-status :
    (now : ℕ) (errors j : Json) (m m' : Message)
    → Reported now errors j m m'
    → m.status ≢ queued
    → m'.status ≢ queued
Reported-status now errors j m m' (inl (a, b)) n e = absurd cc
Reported-status now errors j m m' (inr (a, inl (b, c, d))) n e = absurd cc
Reported-status now errors j m m' (inr (a, inr (inl (b, c)))) n e = absurd cc
Reported-status now errors j m m' (inr (a, inr (inr (inl (b, c))))) n e = absurd cc
Reported-status now errors j m m' (inr (a, inr (inr (inr (b, c))))) n e =
    n (sym (ap (λ (x : Message). x.status) c) ∙ e)

handle_status_update-IsFiled :
    (w : Outside) (p : Fields) (s s' : Store)
    → handle_status_update w p s ≡ some s'
    → IsFiled s
    → IsFiled s'
handle_status_update-IsFiled w p s s' h filed = elim (handle_status_update-OnlyState w p s s' h) [
  | inl (e, a) ↦ subst IsFiled (sym e) filed
  | inr (u, e) ↦
      let r = u.only_state.rest in
      let (c, i, a, b, d) = filed.each u.message u.stored in
      update-IsFiled s s' u.message' filed e
        (
          c,
          i,
          a ∙ sym (ap (λ (x : Message). x.conversation) r),
          b ∙ sym (ap (λ (x : Message). x.tenant) r),
          d ∙ sym (ap (λ (x : Message). x.did) r),
        )
        (Reported-status w.now _ u.status u.message u.message' u.only_state.state
          (filed.settled u.message u.stored))
]

pub HandledAs-IsFiled :
    (w : Outside) (dir : Directory) (event : Json) (message : Fields) (s s' : Store)
    → HandledAs w dir event message s s'
    → IsSound s
    → IsFiled s
    → IsFiled s'
HandledAs-IsFiled w dir event message s s' (inl (e, h)) sound filed =
    handle_status_update-IsFiled w message s s' h filed
HandledAs-IsFiled w dir event message s s' (inr (inl (e, h))) sound filed =
    handle_inbound_message-IsFiled w dir message s s' sound h filed
HandledAs-IsFiled w dir event message s s' (inr (inr (e, f, g, h))) sound filed =
    subst IsFiled (sym h) filed
