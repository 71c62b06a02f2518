-- ===== src/Webhooks/Telnyx/Filed.antt =====
-- The message that `_handle_inbound_message` (apps/webhooks/views.py) files in its conversation.
use mathlib.Core.Path.{subst}
use unified_communication_ba.Common.{
  none, not, ◌≢◌, ◌↔◌, first-In, In-select, list_beq_iff, ℕ, ◌≡◌, ◌⊎◌, inl, inr, refl, sym, ap, ◌∙◌,
  some, List, [], ◌∷◌, ◌++◌, Text, codes, ◌==◌, nat_eq, nat_beq_iff, list_eq, option_eq,
  update_where, In, arith,
}
use unified_communication_ba.Json.{Fields, get_or_null}
use unified_communication_ba.Models.{Did}
use unified_communication_ba.Outbox.{OutboxEvent}
use unified_communication_ba.Messaging.{
  Conversation, Threads, Message, inbound, received, Store, Directory, Outside, id_text, touch,
  participant_set,
}
use unified_communication_ba.Messaging.Again.{resolve_conversation-IsThread}
use unified_communication_ba.Messaging.Same.{IsThread}
use unified_communication_ba.Messaging.Saved.{
  create_message-some, events-touch, messages-announced, threads-announced, kept_as,
}
use unified_communication_ba.Messaging.Filing.{
  KeptThreads, KeptThreads-trans, touch-KeptThreads, resolve_conversation-KeptThreads,
}
use unified_communication_ba.Messaging.Announced.{Announced, broadcast-Announced, media-announced}
use unified_communication_ba.Messaging.Sound.{IsSound}
use unified_communication_ba.Messaging.Kept.{download_message_media-MediaOnly}
use unified_communication_ba.Webhooks.Telnyx.Inbound.{
  did_with_number, participant_numbers, body_of, new_inbound,
}
use unified_communication_ba.Webhooks.Telnyx.Received.{key, Received}

In-touched :
    (c : Conversation) (now : ℕ) (cs : List Conversation)
    → In c cs
    → In
        (record c { last_message_at = some now })
        (update_where
          (λ (x : Conversation). x.id == c.id)
          (λ x. record x { last_message_at = some now })
          cs)
unfolding update_where
In-touched c now [] i = absurd i
In-touched c now (x ∷ cs) (inl e) = inl (rw (← e) (rw ((nat_beq_iff c.id c.id).1 refl) refl))
In-touched c now (x ∷ cs) (inr i) = inr (In-touched c now cs i)

-- The thread of a conversation is the same with a later time.
touch-IsThread :
    (tenant did now : ℕ) (numbers : List Text) (s : Store) (c : Conversation)
    → IsThread tenant did numbers s.threads c
    → IsThread tenant did numbers
        (touch c.id now s).threads
        (record c { last_message_at = some now })
unfolding touch participant_set
touch-IsThread tenant did now numbers s c k = record {
  stored = In-touched c now s.threads.conversations k.stored;
  of_tenant = k.of_tenant;
  of_did = k.of_did;
  among = k.among;
}

pub found_did :
    (n : Text) (ds : List Did) (d : Did) → did_with_number n ds ≡ some d → In d ds × (d.number ≡ n)
unfolding did_with_number
found_did n ds d h =
    let (i, e) = first-In (λ (d : Did). d.number == n) d ds h in (i, (list_beq_iff d.number n).0 e)

module _ (w : Outside) (dir : Directory) (p : Fields) (s : Store) where
  -- The message that an event adds, for the DID and among the numbers.
  pub record Filed (d : Did) (sender first_number : Text) (others : List Text) (s' : Store)
      : Type 0 where
    pub numbers : List Text
    pub message : Message
    pub conversation : Conversation
    pub events : List OutboxEvent
    pub among : (n : Text) → In n numbers ↔ ((n ≡ sender) ⊎ (In n others × (n ≢ first_number)))
    pub thread : IsThread d.tenant d.id numbers s'.threads conversation
    pub kept : KeptThreads s.threads s'.threads
    pub time : conversation.last_message_at ≡ some w.now
    pub of_conversation : message.conversation ≡ conversation.id
    pub of_tenant : message.tenant ≡ d.tenant
    pub of_did : message.did ≡ d.id
    pub of_sender :
        (message.from_number ≡ sender) × (message.direction ≡ inbound) × (message.user ≡ none)
    pub body : body_of w p ≡ some message.body
    pub status : message.status ≡ received
    pub new_id : message.id ≡ s.next_id
    pub named : message.telnyx_message_id ≡ id_text w.repr (get_or_null (codes "id") p)
    pub added : s'.messages ≡ s.messages ++ message ∷ []
    pub announced : s'.events ≡ s.events ++ events
    pub targets : Announced w dir s'.media message events

  participants_among :
      (sender first_number : Text) (others : List Text) (n : Text)
      → In n (participant_numbers sender (first_number ∷ others) first_number)
        ↔ ((n ≡ sender) ⊎ (In n others × (n ≢ first_number)))
  unfolding participant_numbers
  participants_among sender first_number others n =
      let other = λ (x : Text). not (x == first_number) in
      let selected = In-select other n (first_number ∷ others) in
      let same = list_beq_iff n first_number in
      ground (arith, selected, same, λ (e : n ≡ sender). sym e)

  pub Received-Filed :
      (d : Did) (sender first_number : Text) (others : List Text) (s' : Store)
      → IsSound s
      → Received w dir p s d sender
          (participant_numbers sender (first_number ∷ others) first_number)
          s'
      → Filed d sender first_number others s'
  Received-Filed d sender first_number others s' sound r =
      let numbers = participant_numbers sender (first_number ∷ others) first_number in
      let c = r.conversation in
      let m = new_inbound w d sender r.body (key w dir p s) c s.next_id in
      let s0 = record s { threads = r.threads } in
      let e = create_message-some m s0 r.created r.create in
      let o =
        (download_message_media-MediaOnly w s.next_id r.urls r.created r.stored r.download).rest in
      let touched = touch c.id w.now r.stored in
      let (es, f, g) = broadcast-Announced w dir m touched in
      let v : touched.media ≡ s'.media =
        sym (ap (λ (x : Store). x.media) r.announced ∙ media-announced w dir m c.id r.stored) in
      let t : r.stored.threads ≡ r.threads =
        ap (λ (x : Store). x.threads) o ∙ ap (λ (x : Store). x.threads) e in
      let k =
        resolve_conversation-IsThread dir.contacts w.now d.tenant d.id numbers s.threads
          (c, r.threads) sound.fresh r.resolved in
      let l =
        touch-IsThread d.tenant d.id w.now numbers r.stored c
          (subst (λ (x : Threads). IsThread d.tenant d.id numbers x c) (sym t) k) in
      record {
        numbers = numbers;
        among = participants_among sender first_number others;
        message = m;
        conversation = record c { last_message_at = some w.now };
        events = es;
        thread =
            subst
              (λ (x : Threads).
                IsThread d.tenant d.id numbers x (record c { last_message_at = some w.now }))
              (sym (
                ap (λ (x : Store). x.threads) r.announced
                ∙ threads-announced w dir m c.id r.stored))
              l;
        kept =
            KeptThreads-trans
              (resolve_conversation-KeptThreads dir.contacts w.now d.tenant d.id numbers s.threads
                (c, r.threads) r.resolved)
              (KeptThreads-trans (kept_as (sym t)) (
                KeptThreads-trans (touch-KeptThreads c.id w.now r.stored) (
                  kept_as (
                    sym (
                      ap (λ (x : Store). x.threads) r.announced
                      ∙ threads-announced w dir m c.id r.stored)))));
        time = refl;
        of_conversation = refl;
        of_tenant = refl;
        of_did = refl;
        of_sender = (refl, refl, refl);
        body = r.body_text;
        status = refl;
        new_id = refl;
        named = refl;
        added =
            ap (λ (x : Store). x.messages) r.announced
            ∙ messages-announced w dir m c.id r.stored
            ∙ ap (λ (x : Store). x.messages) o
            ∙ ap (λ (x : Store). x.messages) e;
        announced =
            ap (λ (x : Store). x.events) r.announced
            ∙ f
            ∙ ap (λ (l : List OutboxEvent). l ++ es)
                (events-touch c.id w.now r.stored
                  ∙ ap (λ (x : Store). x.events) o
                  ∙ ap (λ (x : Store). x.events) e);
        targets = subst (λ x. Announced w dir x m es) v g;
      }
