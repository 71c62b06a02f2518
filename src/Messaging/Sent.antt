-- ===== src/Messaging/Sent.antt =====
-- `SendMessageView.post` (apps/messaging/views.py): what a request leaves in the tables.
use mathlib.Core.Path.{subst}
use mathlib.Core.List.{append-nil}
use unified_communication_ba.Common.{
  ◌≡◌, ◌⊎◌, inl, inr, refl, sym, ap, ◌∙◌, Option, none, some, Text, List, [], ◌∷◌, ◌++◌, nat_eq, In,
  In-append, arith,
}
use unified_communication_ba.Json.{Json, decimal}
use unified_communication_ba.Models.{Tenant, User}
use unified_communication_ba.Outbox.{OutboxEvent}
use unified_communication_ba.Messaging.Defs.{
  Conversation, Threads, Message, sent, failed, outbound, Media, Store, Directory, Outside,
}
use unified_communication_ba.Messaging.Resolve.{resolve_conversation}
use unified_communication_ba.Messaging.Rows.{touch}
use unified_communication_ba.Messaging.Send.{
  SendData, SendOutcome, SendResponse, telnyx_response, http_status_error, request_error,
  other_error, telnyx_rejected, telnyx_unreachable, sent_id, id_text, message_created, new_outbound,
  sent_message, failed_message, send_message,
}
use unified_communication_ba.Messaging.Again.{
  resolve_conversation-IsThread, resolve_conversation-IsFresh,
}
use unified_communication_ba.Messaging.Sound.{IsSound, create_message-IsSound}
use unified_communication_ba.Messaging.Kept.{download_message_media-MediaOnly, IsSound-grow}
use unified_communication_ba.Messaging.Announced.{Announced, broadcast-Announced, media-announced}
use unified_communication_ba.Messaging.Filing.{
  Place, KeptThreads, KeptThreads-trans, touch-KeptThreads, kept-Place,
  resolve_conversation-KeptThreads,
}
use unified_communication_ba.Messaging.Answered.{
  RefusedBy, TakenBy, Refused, Allowed, outcome-IsSound, Attempt, send_message-cases,
}
use unified_communication_ba.Messaging.Saved.{
  create_message-some, saved_last, events-touch, messages-announced, kept_as, threads-announced,
}

module _ (w : Outside) (send : SendData → SendOutcome) (dir : Directory) (t : Tenant) (u : User)
    (s : Store) where
  -- What the outcome of the call of the provider makes of the request.
  abbrev pub Settled : SendOutcome → List Media → SendResponse → Message → List OutboxEvent → Type 0
  Settled (http_status_error code text) media r m es =
      (r ≡ telnyx_rejected text)
      × (m.status ≡ failed)
      × (m.error_code ≡ some (decimal code))
      × (m.error_detail ≡ some text)
      × (es ≡ [])
  Settled (request_error text) media r m es =
      (r ≡ telnyx_unreachable)
      × (m.status ≡ failed)
      × (m.error_code ≡ none)
      × (m.error_detail ≡ some text)
      × (es ≡ [])
  Settled (telnyx_response j) media r m es =
      (key : Json) × (sent_id j ≡ some key)
      × (m.telnyx_message_id ≡ id_text w.repr key)
      × (r ≡ message_created m)
      × (m.status ≡ sent)
      × (m.sent_at ≡ some w.now)
      × Announced w dir media m es
  Settled other_error media r m es = ⊥

  -- The message that a request adds, sent or failed.
  pub record Sent (form : SendData) (r : SendResponse) (s' : Store) : Type 0 where
    pub conversation : Conversation
    pub threads : Threads
    pub message : Message
    pub events : List OutboxEvent
    pub resolved :
        resolve_conversation dir.contacts w.now t.id form.did.id form.to_numbers s.threads
        ≡ some (conversation, threads)
    pub of_conversation : message.conversation ≡ conversation.id
    pub of_tenant : message.tenant ≡ t.id
    pub of_did : (message.did ≡ form.did.id) × (message.from_number ≡ form.did.number)
    pub of_user : message.user ≡ some u.id
    pub body : message.body ≡ form.body
    pub direction : message.direction ≡ outbound
    pub place : Place s'.threads.conversations message
    pub kept : KeptThreads s.threads s'.threads
    pub added : s'.messages ≡ s.messages ++ message ∷ []
    pub announced : s'.events ≡ s.events ++ events
    pub settled : Settled (send form) s'.media r message events

  refused-Settled :
      (o : SendOutcome) (media : List Media) (r : SendResponse) (m : Message)
      (code detail : Option Text)
      → RefusedBy o r code detail
      → Settled o media r (failed_message m code detail) []
  refused-Settled (http_status_error status text) media r m code detail (a, b, c) =
      (a, refl, b, c, refl)
  refused-Settled (request_error text) media r m code detail (a, b, c) = (a, refl, b, c, refl)
  refused-Settled (telnyx_response j) media r m code detail h = absurd h
  refused-Settled other_error media r m code detail h = absurd h

  taken-Settled :
      (o : SendOutcome) (media : List Media) (r : SendResponse) (m : Message) (key : Json)
      (es : List OutboxEvent)
      → TakenBy o key
      → r ≡ message_created (sent_message w m key)
      → Announced w dir media (sent_message w m key) es
      → Settled o media r (sent_message w m key) es
  taken-Settled (telnyx_response j) media r m key es h e a = (key, h, refl, e, refl, refl, a)
  taken-Settled (http_status_error status text) media r m key es h e a = absurd h
  taken-Settled (request_error text) media r m key es h e a = absurd h
  taken-Settled other_error media r m key es h e a = absurd h

  Attempt-Sent :
      (form : SendData) (r : SendResponse) (s' : Store)
      → IsSound s
      → Attempt w send dir t u s form r s'
      → Sent form r s'
  Attempt-Sent form r s' sound a =
      let m = new_outbound w t u form a.conversation s.next_id in
      let s0 = record s { threads = a.threads } in
      let k0 =
        resolve_conversation-KeptThreads dir.contacts w.now t.id form.did.id form.to_numbers
          s.threads (a.conversation, a.threads) a.resolved in
      let thread =
        resolve_conversation-IsThread dir.contacts w.now t.id form.did.id form.to_numbers s.threads
          (a.conversation, a.threads) sound.fresh a.resolved in
      let place0 : Place a.threads.conversations m =
        (a.conversation, thread.stored, refl, thread.of_tenant, thread.of_did) in
      elim a.outcome [
        | inl n ↦
            let m' = failed_message m n.code n.detail in
            let e = saved_last m m' s0 a.created s' a.create n.save refl sound.below in
            record {
              conversation = a.conversation;
              threads = a.threads;
              message = m';
              events = [];
              resolved = a.resolved;
              of_conversation = refl;
              of_tenant = refl;
              of_did = (refl, refl);
              of_user = refl;
              body = refl;
              direction = refl;
              place = kept-Place m (kept_as (sym (ap (λ (x : Store). x.threads) e))) place0;
              kept = KeptThreads-trans k0 (kept_as (sym (ap (λ (x : Store). x.threads) e)));
              added = ap (λ (x : Store). x.messages) e;
              announced = ap (λ (x : Store). x.events) e ∙ sym (append-nil s.events);
              settled = refused-Settled (send form) s'.media r m n.code n.detail n.refused;
            }
        | inr k ↦
            let m' = sent_message w m k.key in
            let e = saved_last m m' s0 a.created k.saved a.create k.save refl sound.below in
            let o =
              (download_message_media-MediaOnly w m.id form.media_urls k.saved k.stored
                k.download).rest in
            let touched = touch m.conversation w.now k.stored in
            let (es, f, g) = broadcast-Announced w dir m' touched in
            let k1 : KeptThreads a.threads s'.threads =
              KeptThreads-trans
                (kept_as (sym (ap (λ (x : Store). x.threads) o ∙ ap (λ (x : Store). x.threads) e)))
                (KeptThreads-trans (touch-KeptThreads m.conversation w.now k.stored) (
                  kept_as (
                    sym (
                      ap (λ (x : Store). x.threads) k.announced
                      ∙ threads-announced w dir m' m.conversation k.stored)))) in
            let v : touched.media ≡ s'.media = sym (
              ap (λ (x : Store). x.media) k.announced
              ∙ media-announced w dir m' m.conversation k.stored) in
            record {
              conversation = a.conversation;
              threads = a.threads;
              message = m';
              events = es;
              resolved = a.resolved;
              of_conversation = refl;
              of_tenant = refl;
              of_did = (refl, refl);
              of_user = refl;
              body = refl;
              direction = refl;
              place = kept-Place m k1 place0;
              kept = KeptThreads-trans k0 k1;
              added =
                  ap (λ (x : Store). x.messages) k.announced
                  ∙ messages-announced w dir m' m.conversation k.stored
                  ∙ ap (λ (x : Store). x.messages) o
                  ∙ ap (λ (x : Store). x.messages) e;
              announced =
                  ap (λ (x : Store). x.events) k.announced
                  ∙ f
                  ∙ ap (λ (l : List OutboxEvent). l ++ es)
                      (events-touch m.conversation w.now k.stored
                        ∙ ap (λ (x : Store). x.events) o
                        ∙ ap (λ (x : Store). x.events) e);
              settled =
                  taken-Settled (send form) s'.media r m k.key es k.taken k.response
                    (subst (λ (x : List Media). Announced w dir x m' es) v g);
            }
      ]

  -- Where the tables are sound, an answer to a request to send that the view does not fail on is one of
  -- three. A request is refused, and changes nothing: the tenant has no messaging or no profile, the request
  -- is not valid, or its DID is of another tenant. Where the provider refuses the message or is not reached,
  -- it is stored as failed with the error, and no event is added. Where the provider takes it, it is stored
  -- as sent with the provider's id, and announced once to its conversation and once to each user of its DID.
  -- Both are the only new message, of the tenant, the DID and the sender, with the text of the request, in the
  -- conversation that the numbers resolve to, which is stored like all the earlier ones.
  pub send_message-outcome :
      (o : Option SendData) (r : SendResponse) (s' : Store)
      → IsSound s
      → send_message w send dir t u o s ≡ some (r, s')
      → (Refused t o r × (s' ≡ s)) ⊎ ((form : SendData) × Allowed t o form × Sent form r s')
  send_message-outcome o r s' sound h = elim (send_message-cases w send dir t u s o r s' h) [
    | inl e ↦ inl e
    | inr (form, e, a) ↦ inr (form, e, Attempt-Sent form r s' sound a)
  ]

  pub Attempt-IsSound :
      (form : SendData) (r : SendResponse) (s' : Store)
      → IsSound s
      → Attempt w send dir t u s form r s'
      → IsSound s'
  Attempt-IsSound form r s' sound a =
      let m = new_outbound w t u form a.conversation s.next_id in
      let s0 = record s { threads = a.threads } in
      let fresh =
        resolve_conversation-IsFresh dir.contacts w.now t.id form.did.id form.to_numbers s.threads
          (a.conversation, a.threads) sound.fresh a.resolved in
      let c =
        create_message-IsSound m s0 (IsSound-grow s s0 refl (omega arith) fresh sound) a.created
          a.create refl in
      let e = ap (λ (x : Store). x.messages) (create_message-some m s0 a.created a.create) in
      let i : In m a.created.messages =
        subst (λ (l : List Message). In m l) (sym e)
          ((In-append m s.messages (m ∷ [])).1 (inr (inl refl))) in
      outcome-IsSound w dir form m a.created i c (send form) r s' a.outcome

  pub send_message-IsSound :
      (o : Option SendData) (r : SendResponse) (s' : Store)
      → IsSound s
      → send_message w send dir t u o s ≡ some (r, s')
      → IsSound s'
  send_message-IsSound o r s' sound h = elim (send_message-cases w send dir t u s o r s' h) [
    | inl (n, e) ↦ subst IsSound (sym e) sound
    | inr (form, e, a) ↦ Attempt-IsSound form r s' sound a
  ]
