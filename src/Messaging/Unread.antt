-- ===== src/Messaging/Unread.antt =====
-- Reading conversations (apps/messaging/views.py, `ConversationMarkReadView` and the filter `unread`).
use mathlib.Core.Option.{some-injective}
use unified_communication_ba.Common.{
  ℕ, ◌≡◌, inl, inr, refl, sym, ap, ◌∙◌, Bool, true, false, ◌&&◌, Option, none, some, List, [], ◌∷◌,
  ◌++◌, ◌==◌, nat_eq, nat_beq_iff, ltb, first, any, update_where, arith, if◌then◌else◌, Bool-cases,
}
use unified_communication_ba.Messaging.Defs.{Conversation, ReadState, Store}
use unified_communication_ba.Messaging.Reads.{
  has_read_state, read_state_of, newer_than, is_unread, put_read_state, owns_conversation,
  mark_read,
}

-- The last message is later than the time.
abbrev pub later_than : Option ℕ → ℕ → Bool
later_than none now = false
later_than (some at) now = ltb now at

module _ (conversation user now : ℕ) where
  abbrev read_now : ReadState → ReadState
  read_now r = record r { last_read_at = now }

  module _ (c v : ℕ) where
    kept_first :
        (states : List ReadState)
        → (c == conversation && v == user) ≡ false
        → first
            (has_read_state c v)
            (update_where (has_read_state conversation user) read_now states)
          ≡ first (has_read_state c v) states
    unfolding first update_where has_read_state
    kept_first [] h = refl
    kept_first (r ∷ states) h = ground (
      arith,
      kept_first states h,
      nat_beq_iff r.conversation c,
      nat_beq_iff r.user v,
      nat_beq_iff c conversation,
      nat_beq_iff v user,
      nat_beq_iff r.conversation conversation,
      nat_beq_iff r.user user,
    )

    kept_append :
        (states : List ReadState) (r : ReadState)
        → has_read_state c v r ≡ false
        → first (has_read_state c v) (states ++ r ∷ []) ≡ first (has_read_state c v) states
    unfolding first
    kept_append [] r h = ground arith
    kept_append (x ∷ states) r h = ground (arith, kept_append states r h)

  read_first :
      (at : Option ℕ) (states : List ReadState)
      → any (has_read_state conversation user) states ≡ true
      → newer_than at (
          first
            (has_read_state conversation user)
            (update_where (has_read_state conversation user) read_now states))
        ≡ later_than at now
  unfolding first update_where has_read_state any
  read_first at [] h = absurd (ground arith)
  read_first none (r ∷ states) h = refl
  read_first (some at) (r ∷ states) h = ground (arith, read_first (some at) states)

  read_append :
      (at : Option ℕ) (states : List ReadState) (r : ReadState)
      → any (has_read_state conversation user) states ≡ false
      → has_read_state conversation user r ≡ true
      → r.last_read_at ≡ now
      → newer_than at (first (has_read_state conversation user) (states ++ r ∷ []))
        ≡ later_than at now
  unfolding first any
  read_append none states r h e n = refl
  read_append (some at) [] r h e n = ground arith
  read_append (some at) (x ∷ states) r h e n = ground (arith, read_append (some at) states r)

  abbrev own_mark : ReadState
  own_mark = record { conversation = conversation; user = user; last_read_at = now }

  has_read_state-own : has_read_state conversation user own_mark ≡ true
  unfolding has_read_state
  has_read_state-own = ground (arith, nat_beq_iff conversation conversation, nat_beq_iff user user)

  has_read_state-other :
      (c v : ℕ) → (c == conversation && v == user) ≡ false → has_read_state c v own_mark ≡ false
  unfolding has_read_state
  has_read_state-other c v h = ground (
    arith,
    nat_beq_iff conversation c,
    nat_beq_iff user v,
    nat_beq_iff c conversation,
    nat_beq_iff v user,
  )

  own-put_read_state :
      (states : List ReadState) (at : Option ℕ)
      → newer_than at
          (read_state_of conversation user (put_read_state conversation user now states))
        ≡ later_than at now
  unfolding put_read_state read_state_of
  own-put_read_state states at = elim (Bool-cases (any (has_read_state conversation user) states)) [
    | inl e ↦ rw e (read_first at states e)
    | inr e ↦ rw e (read_append at states own_mark e has_read_state-own refl)
  ]

  other-put_read_state :
      (states : List ReadState) (c v : ℕ)
      → (c == conversation && v == user) ≡ false
      → read_state_of c v (put_read_state conversation user now states) ≡ read_state_of c v states
  unfolding put_read_state read_state_of
  other-put_read_state states c v h =
      elim (Bool-cases (any (has_read_state conversation user) states)) [
        | inl e ↦ rw e (kept_first c v states h)
        | inr e ↦ rw e (kept_append c v states own_mark (has_read_state-other c v h))
      ]

  is_unread-put_read_state :
      (states : List ReadState) (v : ℕ) (c : Conversation)
      → is_unread (put_read_state conversation user now states) v c ≡ (
          if c.id == conversation && v == user
          then later_than c.last_message_at now
          else is_unread states v c)
  unfolding is_unread
  is_unread-put_read_state states v c = elim (Bool-cases (c.id == conversation && v == user)) [
    | inr e ↦ rw e (ap (newer_than c.last_message_at) (other-put_read_state states c.id v e))
    | inl e ↦
        let i : c.id ≡ conversation = ground (arith, nat_beq_iff c.id conversation) in
        let j : v ≡ user = ground (arith, nat_beq_iff v user) in
        rw e (rw i (rw j (own-put_read_state states c.last_message_at)))
  ]

-- After a user has marked a conversation as read, it is unread for that user exactly where its last message
-- is later than the mark; for any other user or conversation, nothing about it has changed.
pub is_unread-mark_read :
    (tenant user conversation now : ℕ) (s s' : Store)
    → mark_read tenant user conversation now s ≡ some s'
    → (v : ℕ) (c : Conversation)
    → is_unread s'.read_states v c ≡ (
        if c.id == conversation && v == user
        then later_than c.last_message_at now
        else is_unread s.read_states v c)
unfolding mark_read
is_unread-mark_read tenant user conversation now s s' h v c =
    elim (Bool-cases (owns_conversation conversation tenant s.threads.conversations)) [
      | inr e ↦ let q = rw e at h in absurd cc
      | inl e ↦
          let q = some-injective _ _ (rw e at h) in
          ap (λ (x : Store). is_unread x.read_states v c) (sym q)
          ∙ is_unread-put_read_state conversation user now s.read_states v c
    ]
