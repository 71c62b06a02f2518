-- ===== src/Messaging/Unique.antt =====
-- `resolve_conversation` (apps/messaging/services.py) keeps one conversation for a set of participants.
use mathlib.Core.Path.{subst}
use unified_communication_ba.Common.{
  ℕ, ◌≡◌, inl, inr, refl, sym, ap, ◌∙◌, some, none, Option, List, [], ◌∷◌, Text, nat_eq, list_eq,
  In, In-append, arith,
}
use unified_communication_ba.Contacts.{ContactNumber}
use unified_communication_ba.Messaging.Defs.{Conversation, Threads}
use unified_communication_ba.Messaging.Resolve.{
  normalized, participant_set, find_thread, new_participants, found_or_create, resolve_conversation,
}
use unified_communication_ba.Messaging.Sets.{
  SameMembers, SameMembers-symm, SameMembers-trans, In-participant_set, participant_set-In,
}
use unified_communication_ba.Messaging.Same.{
  IsFresh, IsThread, In-new_participants, find_thread-none,
}
use unified_communication_ba.Messaging.Created.{created-IsThread}
use unified_communication_ba.Messaging.Again.{In-require_number}

-- The conversations of a tenant and a DID have different sets of participants.
abbrev pub IsUnique : Threads → Type 0
IsUnique t =
    (tenant did : ℕ) (numbers : List Text) (c d : Conversation)
    → IsThread tenant did numbers t c
    → IsThread tenant did numbers t d
    → c.id ≡ d.id

module _ (contacts : List ContactNumber) (now tenant did : ℕ) (numbers : List Text) (t : Threads)
    (fresh : IsFresh t) where
  abbrev result : Option Conversation → Conversation × Threads
  result o = found_or_create o contacts now tenant did numbers t

  -- An earlier conversation has the same participants after a creation.
  same_participants :
      (c : Conversation)
      → In c t.conversations
      → SameMembers
          (participant_set t.participants c)
          (participant_set (result none).1.participants c)
  unfolding found_or_create
  same_participants c i =
      let added = new_participants contacts tenant t.next_id numbers in
      record {
        to = λ x j.
            let (p, l, e, f) = In-participant_set x t.participants c j in
            rw f (
              participant_set-In p (result none).1.participants c
                ((In-append p t.participants added).1 (inl l)) e);
        of = λ x j.
            let (p, l, e, f) = In-participant_set x (result none).1.participants c j in
            elim ((In-append p t.participants added).0 l) [
              | inl m ↦ rw f (participant_set-In p t.participants c m e)
              | inr m ↦ absurd (
                  ground (
                    arith,
                    In-new_participants contacts tenant t.next_id numbers p m,
                    fresh.conversations c i,
                  ))
            ];
      }

  earlier :
      (a b : ℕ) (ns : List Text) (c : Conversation)
      → In c t.conversations
      → IsThread a b ns (result none).1 c
      → IsThread a b ns t c
  earlier a b ns c i k = record {
    stored = i;
    of_tenant = k.of_tenant;
    of_did = k.of_did;
    among = SameMembers-trans (same_participants c i) k.among;
  }

  later :
      (o : Option Conversation) (a b : ℕ) (ns : List Text) (c : Conversation)
      → IsThread a b ns t c
      → IsThread a b ns (result o).1 c
  unfolding found_or_create
  later (some d) a b ns c k = k
  later none a b ns c k = record {
    stored = (In-append c t.conversations _).1 (inl k.stored);
    of_tenant = k.of_tenant;
    of_did = k.of_did;
    among = SameMembers-trans (SameMembers-symm (same_participants c k.stored)) k.among;
  }

  -- No earlier conversation is the one that was just created.
  not_created :
      (a b : ℕ) (ns : List Text) (c : Conversation)
      → find_thread tenant did (normalized numbers) t ≡ none
      → In c t.conversations
      → IsThread a b ns (result none).1 c
      → IsThread a b ns (result none).1 (result none).0
      → ⊥
  unfolding found_or_create
  not_created a b ns c f i k l =
      let own = created-IsThread contacts now tenant did numbers t fresh in
      find_thread-none tenant did numbers t c f (
        earlier tenant did numbers c i (record {
          stored = k.stored;
          of_tenant = k.of_tenant ∙ sym l.of_tenant ∙ own.of_tenant;
          of_did = k.of_did ∙ sym l.of_did ∙ own.of_did;
          among =
              SameMembers-trans k.among (SameMembers-trans (SameMembers-symm l.among) own.among);
        }))

  result-IsUnique :
      (o : Option Conversation)
      → find_thread tenant did (normalized numbers) t ≡ o
      → IsUnique t
      → IsUnique (result o).1
  unfolding found_or_create
  result-IsUnique (some e) f unique a b ns c d k l = unique a b ns c d k l
  result-IsUnique none f unique a b ns c d k l =
      let new = (result none).0 in
      elim ((In-append c t.conversations (new ∷ [])).0 k.stored) [
        | inl i ↦ elim ((In-append d t.conversations (new ∷ [])).0 l.stored) [
          | inl j ↦ unique a b ns c d (earlier a b ns c i k) (earlier a b ns d j l)
          | inr (inl e) ↦
              absurd (not_created a b ns c f i k (subst (IsThread a b ns (result none).1) e l))
          | inr (inr e) ↦ absurd e
        ]
        | inr (inl e) ↦ elim ((In-append d t.conversations (new ∷ [])).0 l.stored) [
          | inl j ↦
              absurd (not_created a b ns d f j l (subst (IsThread a b ns (result none).1) e k))
          | inr (inl g) ↦ ap (λ (x : Conversation). x.id) (e ∙ sym g)
          | inr (inr g) ↦ absurd g
        ]
        | inr (inr e) ↦ absurd e
      ]

  pub resolved-IsUnique :
      (r : Conversation × Threads)
      → resolve_conversation contacts now tenant did numbers t ≡ some r
      → IsUnique t
      → IsUnique r.1
  unfolding resolve_conversation
  resolved-IsUnique r h unique =
      let found = find_thread tenant did (normalized numbers) t in
      let (x, i, e) = In-require_number (normalized numbers) (result found) r h in
      subst (λ (r : Conversation × Threads). IsUnique r.1) e (result-IsUnique found refl unique)

  pub resolved-IsThread :
      (r : Conversation × Threads) (a b : ℕ) (ns : List Text) (c : Conversation)
      → resolve_conversation contacts now tenant did numbers t ≡ some r
      → IsThread a b ns t c
      → IsThread a b ns r.1 c
  unfolding resolve_conversation
  resolved-IsThread r a b ns c h k =
      let found = find_thread tenant did (normalized numbers) t in
      let (x, i, e) = In-require_number (normalized numbers) (result found) r h in
      subst (λ (r : Conversation × Threads). IsThread a b ns r.1 c) e (later found a b ns c k)
