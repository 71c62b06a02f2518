-- ===== src/Webhooks/Telnyx/Stored.antt =====
-- Received messages (apps/webhooks/views.py, `_handle_inbound_message`) in the tables of apps/messaging.
use mathlib.Core.Path.{subst}
use unified_communication_ba.Common.{
  none, Option-cases, ◌≡◌, ◌⊎◌, inl, inr, refl, sym, ap, ◌∙◌, some, List, [], ◌∷◌, ◌++◌, Text,
  codes, nat_eq, list_eq, option_eq, In, In-append, arith,
}
use unified_communication_ba.Json.{Fields, get_or_null}
use unified_communication_ba.Models.{Did}
use unified_communication_ba.Messaging.{Message, Store, Directory, Outside, id_text}
use unified_communication_ba.Messaging.Again.{resolve_conversation-IsFresh}
use unified_communication_ba.Messaging.Sound.{IsSound, create_message-IsSound}
use unified_communication_ba.Messaging.Kept.{IsSound-grow, announced-IsSound}
use unified_communication_ba.Webhooks.Telnyx.Payload.{texts_under, from_number_of}
use unified_communication_ba.Webhooks.Telnyx.Inbound.{
  participant_numbers, new_inbound, handle_inbound_message,
}
use unified_communication_ba.Webhooks.Telnyx.Received.{
  key, Received, Ignored, handle_inbound_message-cases,
}
use unified_communication_ba.Webhooks.Telnyx.Filed.{Filed, Received-Filed, found_did}

module _ (w : Outside) (dir : Directory) (p : Fields) (s : Store) where
  pub handle_inbound_message-Filed :
      (s' : Store)
      → IsSound s
      → handle_inbound_message w dir p s ≡ some s'
      → ((s' ≡ s) × Ignored w dir p s)
        ⊎ ((sender first_number : Text) × (others : List Text) × (d : Did) × (from_number_of w.repr
                p
              ≡ some sender)
            × (texts_under w.repr (codes "to") (codes "phone_number") p
                ≡ some (first_number ∷ others))
            × In d dir.dids
            × (d.number ≡ first_number)
            × Filed w dir p s d sender first_number others s')
  handle_inbound_message-Filed s' sound h = elim (handle_inbound_message-cases w dir p s s' h) [
    | inl e ↦ inl e
    | inr f ↦
        let (i, e) = found_did f.first_number dir.dids f.did f.found in
        inr (
          f.sender,
          f.first_number,
          f.others,
          f.did,
          f.from_sender,
          f.to_numbers,
          i,
          e,
          Received-Filed w dir p s f.did f.sender f.first_number f.others s' sound f.received,
        )
  ]

  Received-IsSound :
      (d : Did) (sender : Text) (numbers : List Text) (s' : Store)
      → IsSound s
      → Received w dir p s d sender numbers s'
      → IsSound s'
  Received-IsSound d sender numbers s' sound r =
      let c = r.conversation in
      let m = new_inbound w d sender r.body (key w dir p s) c s.next_id in
      let s0 = record s { threads = r.threads } in
      let fresh =
        resolve_conversation-IsFresh dir.contacts w.now d.tenant d.id numbers s.threads
          (c, r.threads) sound.fresh r.resolved in
      subst IsSound (sym r.announced) (
        announced-IsSound w dir m r.urls r.created r.stored r.download (
          create_message-IsSound m s0 (IsSound-grow s s0 refl (omega arith) fresh sound) r.created
            r.create refl))

  pub handle_inbound_message-IsSound :
      (s' : Store) → IsSound s → handle_inbound_message w dir p s ≡ some s' → IsSound s'
  handle_inbound_message-IsSound s' sound h = elim (handle_inbound_message-cases w dir p s s' h) [
    | inl (e, ignored) ↦ subst IsSound (sym e) sound
    | inr f ↦
        Received-IsSound f.did f.sender
          (participant_numbers f.sender (f.first_number ∷ f.others) f.first_number) s' sound
          f.received
  ]

  stored_before :
      (s' : Store) (m : Message) (k : Text)
      → IsSound s
      → In m s.messages
      → m.telnyx_message_id ≡ some k
      → id_text w.repr (get_or_null (codes "id") p) ≡ some k
      → handle_inbound_message w dir p s ≡ some s'
      → s' ≡ s
  stored_before s' m k sound i e f h = elim (handle_inbound_message-Filed s' sound h) [
    | inl (q, ignored) ↦ q
    | inr (sender, n, ns, d, a, b, c, e', x) ↦
        let kept = handle_inbound_message-IsSound s' sound h in
        let stored : (y : Message) → In y (s.messages ++ x.message ∷ []) → In y s'.messages =
          λ y j. subst (λ (l : List Message). In y l) (sym x.added) j in
        let same =
          kept.one_key m x.message k
            (stored m ((In-append m s.messages (x.message ∷ [])).1 (inl i)))
            (stored x.message
              ((In-append x.message s.messages (x.message ∷ [])).1 (inr (inl refl))))
            e (x.named ∙ f) in
        absurd (omega (arith, sound.below m i, same, x.new_id))
  ]

  -- Where the tables are sound, a message cannot be stored twice: an event with a received message that
  -- carries the id of a stored one fails or changes nothing.
  pub handle_inbound_message-again :
      (m : Message) (k : Text)
      → IsSound s
      → In m s.messages
      → m.telnyx_message_id ≡ some k
      → id_text w.repr (get_or_null (codes "id") p) ≡ some k
      → (handle_inbound_message w dir p s ≡ none) ⊎ (handle_inbound_message w dir p s ≡ some s)
  handle_inbound_message-again m k sound i e f =
      elim (Option-cases (handle_inbound_message w dir p s)) [
        | inl h ↦ inl h
        | inr (s', h) ↦ inr (h ∙ ap some (stored_before s' m k sound i e f h))
      ]
