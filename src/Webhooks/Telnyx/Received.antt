-- ===== src/Webhooks/Telnyx/Received.antt =====
-- `_handle_inbound_message` (apps/webhooks/views.py): what a received message leaves in the tables.

use mathlib.Core.Option.{some-injective}
use unified_communication_ba.Common.{
  ◌≡◌, ◌≢◌, ◌⊎◌, ap, ◌∙◌, ◌==◌, list_beq_iff, first-none, In, arith, inl, inr, refl, sym, true,
  false, Option, none, some, List, [], ◌∷◌, Text, codes, nonempty, nat_eq, list_eq, option_eq,
  Bool-cases, Option-cases,
}
use unified_communication_ba.Json.{Fields, get_or_null}
use unified_communication_ba.Models.{Did}
use unified_communication_ba.Messaging.{
  Conversation, Threads, Message, Store, Directory, Outside, id_text, create_message,
  resolve_conversation, download_message_media, touch, broadcast_message_event,
}
use unified_communication_ba.Webhooks.Telnyx.Payload.{texts_under, from_number_of}
use unified_communication_ba.Webhooks.Telnyx.Inbound.{
  did_with_number, participant_numbers, body_of, new_inbound, with_media, store_inbound,
  receive_for, receive, handle_inbound_message,
}

module _ (w : Outside) (dir : Directory) (p : Fields) (s : Store) where
  abbrev pub key : Option Text
  key = id_text w.repr (get_or_null (codes "id") p)

  -- The steps of the view, for the DID `d` and the sender.
  pub record Received (d : Did) (sender : Text) (numbers : List Text) (s' : Store) : Type 0 where
    pub conversation : Conversation
    pub threads : Threads
    pub body : Text
    pub body_text : body_of w p ≡ some body
    pub urls : List Text
    pub created : Store
    pub stored : Store
    pub resolved :
        resolve_conversation dir.contacts w.now d.tenant d.id numbers s.threads
        ≡ some (conversation, threads)
    pub create :
        create_message
          (new_inbound w d sender body key conversation s.next_id)
          (record s { threads = threads })
        ≡ some created
    pub download : download_message_media w s.next_id urls created ≡ some stored
    pub announced :
        s'
        ≡ broadcast_message_event w dir
            (new_inbound w d sender body key conversation s.next_id)
            (touch conversation.id w.now stored)

  with_media-cases :
      (m : Message) (us : Option (List Text)) (o : Option Store) (s' : Store)
      → with_media w dir m us o ≡ some s'
      → (urls : List Text) × (c : Store) × (t : Store) × (o ≡ some c)
        × (download_message_media w m.id urls c ≡ some t)
        × (s' ≡ broadcast_message_event w dir m (touch m.conversation w.now t))
  with_media-cases m none o s' h = absurd cc
  with_media-cases m (some urls) none s' h = absurd cc
  with_media-cases m (some urls) (some c) s' h =
      elim (Option-cases (download_message_media w m.id urls c)) [
        | inl e ↦ let q = rw e at h in absurd cc
        | inr (t, e) ↦ (urls, c, t, refl, e, sym (some-injective _ _ (rw e at h)))
      ]

  store_inbound-Received :
      (d : Did) (sender : Text) (numbers : List Text) (b : Option Text)
      (o : Option (Conversation × Threads)) (s' : Store)
      → body_of w p ≡ b
      → resolve_conversation dir.contacts w.now d.tenant d.id numbers s.threads ≡ o
      → store_inbound w dir p d sender s b o ≡ some s'
      → Received d sender numbers s'
  unfolding store_inbound
  store_inbound-Received d sender numbers none o s' t e h = absurd cc
  store_inbound-Received d sender numbers (some body) none s' t e h = absurd cc
  store_inbound-Received d sender numbers (some body) (some (c, threads)) s' t e h =
      let (urls, x, y, f, g, k) =
        with_media-cases (new_inbound w d sender body key c s.next_id) _ _ s' h in
      record {
        conversation = c;
        threads = threads;
        body = body;
        body_text = t;
        urls = urls;
        created = x;
        stored = y;
        resolved = e;
        create = f;
        download = g;
        announced = k;
      }

  -- A message for a DID of the directory: its first number, the sender and the other numbers.
  pub record ForDid (s' : Store) : Type 0 where
    pub sender : Text
    pub first_number : Text
    pub others : List Text
    pub did : Did
    pub from_sender : from_number_of w.repr p ≡ some sender
    pub to_numbers :
        texts_under w.repr (codes "to") (codes "phone_number") p ≡ some (first_number ∷ others)
    pub sent_by : nonempty sender ≡ true
    pub found : did_with_number first_number dir.dids ≡ some did
    pub received :
        Received did sender (participant_numbers sender (first_number ∷ others) first_number) s'

  -- A message that is for no DID of the directory, or without a sender or a receiver.
  abbrev pub Ignored : Type 0
  Ignored =
      (from_number_of w.repr p ≡ some [])
      ⊎ ((texts_under w.repr (codes "to") (codes "phone_number") p ≡ some [])
          ⊎ ((n : Text) × (ns : List Text) × (texts_under w.repr (codes "to") (codes "phone_number")
                  p
                ≡ some (n ∷ ns))
              × ((d : Did) → In d dir.dids → d.number ≢ n)))

  no_did : (n : Text) → did_with_number n dir.dids ≡ none → (d : Did) → In d dir.dids → d.number ≢ n
  unfolding did_with_number
  no_did n h d i e =
      let f = first-none (λ (d : Did). d.number == n) d dir.dids h i in
      let g = (list_beq_iff d.number n).1 e in absurd cc

  empty_text : (t : Text) → nonempty t ≡ false → t ≡ []
  empty_text [] h = refl
  empty_text (c ∷ t) h = absurd (ground (arith, h))

  receive-cases :
      (f : Option Text) (ns : Option (List Text)) (s' : Store)
      → from_number_of w.repr p ≡ f
      → texts_under w.repr (codes "to") (codes "phone_number") p ≡ ns
      → receive w dir p f ns s ≡ some s'
      → ((s' ≡ s) × Ignored) ⊎ ForDid s'
  unfolding receive receive_for
  receive-cases none ns s' e f h = absurd cc
  receive-cases (some sender) none s' e f h = absurd cc
  receive-cases (some sender) (some []) s' e f h = inl (sym (some-injective _ _ h), inr (inl f))
  receive-cases (some sender) (some (n ∷ ns)) s' e f h = elim (Bool-cases (nonempty sender)) [
    | inr g ↦
        inl
          (sym (some-injective _ _ (rw (g, receive) at h)), inl (e ∙ ap some (empty_text sender g)))
    | inl g ↦ elim (Option-cases (did_with_number n dir.dids)) [
      | inl k ↦
          inl (sym (some-injective _ _ (rw (g, k, receive) at h)), inr (inr (n, ns, f, no_did n k)))
      | inr (d, k) ↦ inr (record {
        sender = sender;
        first_number = n;
        others = ns;
        did = d;
        from_sender = e;
        to_numbers = f;
        sent_by = g;
        found = k;
        received =
            store_inbound-Received d sender (participant_numbers sender (n ∷ ns) n) (body_of w p) _
              s' refl refl (rw (g, k, receive) at h);
      })
    ]
  ]

  pub handle_inbound_message-cases :
      (s' : Store) → handle_inbound_message w dir p s ≡ some s' → ((s' ≡ s) × Ignored) ⊎ ForDid s'
  unfolding handle_inbound_message
  handle_inbound_message-cases s' h = receive-cases _ _ s' refl refl h
