-- ===== src/Messaging/Again.antt =====
-- `resolve_conversation` (apps/messaging/services.py): what a call returns.
use mathlib.Core.Path.{subst}
use unified_communication_ba.Common.{
  ℕ, ◌≡◌, refl, inl, inr, Option, none, some, List, [], ◌∷◌, Text, In, In-append, arith, list_eq,
  nat_eq,
}
use unified_communication_ba.Contacts.{ContactNumber}
use unified_communication_ba.Messaging.Defs.{Conversation, Threads}
use unified_communication_ba.Messaging.Resolve.{
  normalized, find_thread, new_participants, found_or_create, require_number, resolve_conversation,
}
use unified_communication_ba.Messaging.Same.{
  IsFresh, IsThread, In-new_participants, find_thread-IsThread,
}
use unified_communication_ba.Messaging.Created.{created-IsThread}

pub require_number-In :
    (numbers : List Text) (r : Conversation × Threads) (x : Text)
    → In x numbers
    → require_number numbers r ≡ some r
unfolding require_number
require_number-In [] r x i = absurd i
require_number-In (n ∷ ns) r x i = refl

pub In-require_number :
    (numbers : List Text) (r s : Conversation × Threads)
    → require_number numbers r ≡ some s
    → (x : Text) × In x numbers × (r ≡ s)
unfolding require_number
In-require_number [] r s h = cc
In-require_number (n ∷ ns) r s h = (n, inl refl, cc)

module _ (contacts : List ContactNumber) (now tenant did : ℕ) (numbers : List Text)
    (t : Threads) where
  abbrev result : Option Conversation → Conversation × Threads
  result o = found_or_create o contacts now tenant did numbers t

  returned :
      (o : Option Conversation)
      → IsFresh t
      → find_thread tenant did (normalized numbers) t ≡ o
      → IsThread tenant did numbers (result o).1 (result o).0
  unfolding found_or_create
  returned none fresh f = created-IsThread contacts now tenant did numbers t fresh
  returned (some c) fresh f = find_thread-IsThread tenant did numbers t c f

  -- Where the ids in the tables are all below the next one, what `resolve_conversation` returns, found
  -- or created, is a stored conversation of the tenant and the DID whose participants are exactly the
  -- given numbers.
  pub resolve_conversation-IsThread :
      (r : Conversation × Threads)
      → IsFresh t
      → resolve_conversation contacts now tenant did numbers t ≡ some r
      → IsThread tenant did numbers r.1 r.0
  unfolding resolve_conversation
  resolve_conversation-IsThread r fresh h =
      let found = find_thread tenant did (normalized numbers) t in
      let (x, i, e) = In-require_number (normalized numbers) (result found) r h in
      subst (λ (r : Conversation × Threads). IsThread tenant did numbers r.1 r.0) e
        (returned found fresh refl)

  IsFresh-result : (o : Option Conversation) → IsFresh t → IsFresh (result o).1
  unfolding found_or_create
  IsFresh-result none fresh = record {
    conversations = λ c i. elim ((In-append c t.conversations ((result none).0 ∷ [])).0 i) [
      | inl j ↦ ground (arith, fresh.conversations c j)
      | inr (inl e) ↦ rw e (ground arith)
      | inr (inr e) ↦ absurd e
    ];
    participants = λ p i.
        elim ((In-append p t.participants (new_participants contacts tenant t.next_id numbers)).0
          i) [
            | inl j ↦ ground (arith, fresh.participants p j)
            | inr j ↦ ground (arith, In-new_participants contacts tenant t.next_id numbers p j)
          ];
  }
  IsFresh-result (some c) fresh = fresh

  -- A call keeps every id in the tables below the next one.
  pub resolve_conversation-IsFresh :
      (r : Conversation × Threads)
      → IsFresh t
      → resolve_conversation contacts now tenant did numbers t ≡ some r
      → IsFresh r.1
  unfolding resolve_conversation
  resolve_conversation-IsFresh r fresh h =
      let found = find_thread tenant did (normalized numbers) t in
      let (x, i, e) = In-require_number (normalized numbers) (result found) r h in
      subst (λ (r : Conversation × Threads). IsFresh r.1) e (IsFresh-result found fresh)
