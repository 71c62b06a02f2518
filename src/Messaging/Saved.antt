-- ===== src/Messaging/Saved.antt =====
-- Rows of messages that are created and then saved (apps/messaging/views.py).
use mathlib.Core.Path.{subst}
use mathlib.Core.Option.{some-injective}
use unified_communication_ba.Common.{
  ℕ, ◌+◌, ◌<◌, ◌≡◌, inl, inr, refl, sym, ap, ◌∙◌, some, List, [], ◌∷◌, ◌++◌, ◌==◌, nat_eq,
  nat_beq_iff, any, update_where, In, arith, Bool-cases,
}
use unified_communication_ba.Messaging.Defs.{Threads, Message, Store, Directory, Outside}
use unified_communication_ba.Messaging.Broadcast.{broadcast_message_event}
use unified_communication_ba.Messaging.Rows.{taken_by, create_message, save_message, touch}
use unified_communication_ba.Messaging.Filing.{KeptThreads, KeptThreads-refl}

pub create_message-some :
    (m : Message) (s s' : Store)
    → create_message m s ≡ some s'
    → s' ≡ record s { messages = s.messages ++ m ∷ []; next_id = s.next_id + 1 }
unfolding create_message
create_message-some m s s' h =
    elim (Bool-cases (any (taken_by m.id m.telnyx_message_id) s.messages)) [
      | inl t ↦ let q = rw t at h in absurd cc
      | inr t ↦ sym (some-injective _ _ (rw t at h))
    ]

pub save_message-some :
    (m : Message) (s s' : Store)
    → save_message m s ≡ some s'
    → s' ≡ record s { messages = update_where (λ (x : Message). x.id == m.id) (λ _. m) s.messages }
unfolding save_message
save_message-some m s s' h =
    elim (Bool-cases (any (taken_by m.id m.telnyx_message_id) s.messages)) [
      | inl t ↦ let q = rw t at h in absurd cc
      | inr t ↦ sym (some-injective _ _ (rw t at h))
    ]

-- Only the last row has the id.
update_where-last :
    (m m' : Message) (ms : List Message)
    → m.id ≡ m'.id
    → ((x : Message) → In x ms → x.id < m.id)
    → update_where (λ (x : Message). x.id == m'.id) (λ _. m') (ms ++ m ∷ []) ≡ ms ++ m' ∷ []
unfolding update_where
update_where-last m m' [] e h = ground (arith, nat_beq_iff m.id m'.id)
update_where-last m m' (x ∷ ms) e h = ground (
  arith,
  update_where-last m m' ms e (λ y i. h y (inr i)),
  h x (inl refl),
  nat_beq_iff x.id m'.id,
)

pub saved_last :
    (m m' : Message) (s c s' : Store)
    → create_message m s ≡ some c
    → save_message m' c ≡ some s'
    → m.id ≡ m'.id
    → ((x : Message) → In x s.messages → x.id < m.id)
    → s' ≡ record s { messages = s.messages ++ m' ∷ []; next_id = s.next_id + 1 }
saved_last m m' s c s' h k e b =
    let f = create_message-some m s c h in
    save_message-some m' c s' k
    ∙ ap
        (λ (x : Store). record x {
          messages = update_where (λ (x : Message). x.id == m'.id) (λ _. m') x.messages;
        })
        f
    ∙ ap (λ (ms : List Message). record s { messages = ms; next_id = s.next_id + 1 })
        (update_where-last m m' s.messages e b)

pub events-touch : (id now : ℕ) (s : Store) → (touch id now s).events ≡ s.events
unfolding touch
events-touch id now s = refl

pub messages-announced :
    (w : Outside) (dir : Directory) (m : Message) (id : ℕ) (s : Store)
    → (broadcast_message_event w dir m (touch id w.now s)).messages ≡ s.messages
unfolding broadcast_message_event touch
messages-announced w dir m id s = refl

pub kept_as : {t t' : Threads} → t ≡ t' → KeptThreads t t'
kept_as {t} {t'} e = subst (KeptThreads t) e (KeptThreads-refl t)

pub threads-announced :
    (w : Outside) (dir : Directory) (m : Message) (id : ℕ) (s : Store)
    → (broadcast_message_event w dir m (touch id w.now s)).threads ≡ (touch id w.now s).threads
unfolding broadcast_message_event
threads-announced w dir m id s = refl
