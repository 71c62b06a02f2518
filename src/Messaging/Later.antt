-- ===== src/Messaging/Later.antt =====
-- `resolve_conversation` (apps/messaging/services.py): the same numbers again, whatever comes between.
use mathlib.Core.Path.{subst}
use unified_communication_ba.Common.{
  In-update_where, ℕ, ◌≡◌, inl, inr, refl, sym, ap, ◌∙◌, true, some, List, Text, nonempty, ◌==◌,
  nat_eq, list_eq, select, map, dedupe, In, Option-cases,
}
use unified_communication_ba.Contacts.{ContactNumber, digits_of}
use unified_communication_ba.Messaging.Defs.{Conversation, Participant, Threads, Store}
use unified_communication_ba.Messaging.Resolve.{
  normalize_number, normalized, participant_set, find_thread, found_or_create, resolve_conversation,
}
use unified_communication_ba.Messaging.Sets.{SameMembers, In-normalized, normalized-In}
use unified_communication_ba.Messaging.Same.{
  IsFresh, IsThread, find_thread-IsThread, find_thread-none, IsThread-SameMembers,
}
use unified_communication_ba.Messaging.Again.{
  require_number-In, In-require_number, resolve_conversation-IsThread, resolve_conversation-IsFresh,
}
use unified_communication_ba.Messaging.Rows.{touch}
use unified_communication_ba.Messaging.Filing.{touch-KeptThreads}
use unified_communication_ba.Messaging.Kept.{touch-IsFresh}
use unified_communication_ba.Messaging.Unique.{IsUnique, resolved-IsUnique, resolved-IsThread}

-- The numbers of one list that are not empty are in the other, up to what is no digit.
abbrev pub Covers : List Text → List Text → Type 0
Covers a b =
    (n : Text)
    → In n a
    → nonempty n ≡ true
    → (k : Text) × In k b × (nonempty k ≡ true) × (digits_of n ≡ digits_of k)

-- Calls for any tenants and numbers at any times, and messages in any conversations, one after the other.
pub data Calls (s : Store) : Store → Type 0 where
  here : Calls s s
  resolve :
      {t : Store} (contacts : List ContactNumber) (now tenant did : ℕ) (numbers : List Text)
      (r : Conversation × Threads)
      → Calls s t
      → resolve_conversation contacts now tenant did numbers t.threads ≡ some r
      → Calls s (record t { threads = r.1 })
  message : {t : Store} (id now : ℕ) → Calls s t → Calls s (touch id now t)

covered : (a b : List Text) → Covers a b → (x : Text) → In x (normalized a) → In x (normalized b)
unfolding normalize_number
covered a b h x i =
    let (n, j, e, f) = In-normalized x a i in
    let (k, l, g, q) = h n j e in
    subst (λ (y : Text). In y (normalized b)) (sym (f ∙ q)) (normalized-In k b l g)

pub Covers-SameMembers :
    (a b : List Text) → Covers a b → Covers b a → SameMembers (normalized a) (normalized b)
Covers-SameMembers a b h k = record { to = covered a b h; of = covered b a k }

participant_set-id :
    (ps : List Participant) (c d : Conversation)
    → c.id ≡ d.id
    → participant_set ps c ≡ participant_set ps d
unfolding participant_set
participant_set-id ps c d e =
    ap
      (λ (n : ℕ). dedupe (
        map (λ (p : Participant). normalize_number p.phone_number)
          (select (λ (p : Participant). p.conversation == n) ps)))
      e

same-IsThread :
    (a b : ℕ) (ns : List Text) (t t' : Threads) (c d : Conversation)
    → In d t'.conversations
    → t'.participants ≡ t.participants
    → d.id ≡ c.id
    → d.tenant ≡ c.tenant
    → d.did ≡ c.did
    → IsThread a b ns t c
    → IsThread a b ns t' d
same-IsThread a b ns t t' c d i p e f g k = record {
  stored = i;
  of_tenant = f ∙ k.of_tenant;
  of_did = g ∙ k.of_did;
  among =
      subst (λ (x : List Text). SameMembers x (normalized ns))
        (sym (
          ap (λ (ps : List Participant). participant_set ps d) p
          ∙ participant_set-id t.participants d c e))
        k.among;
}

participants-touch :
    (id now : ℕ) (s : Store) → (touch id now s).threads.participants ≡ s.threads.participants
unfolding touch
participants-touch id now s = refl

module _ (id now : ℕ) (s : Store) (a b : ℕ) (ns : List Text) (c : Conversation) where
  touched-IsThread :
      IsThread a b ns s.threads c
      → (d : Conversation) × IsThread a b ns (touch id now s).threads d × (d.id ≡ c.id)
  touched-IsThread k =
      let (d, i, e, f, g) = (touch-KeptThreads id now s).each c k.stored in
      (d, same-IsThread a b ns s.threads _ c d i (participants-touch id now s) e f g k, e)

  before-IsThread :
      IsThread a b ns (touch id now s).threads c
      → (d : Conversation) × IsThread a b ns s.threads d × (d.id ≡ c.id)
  unfolding touch
  before-IsThread k =
      elim (In-update_where (λ (x : Conversation). x.id == id)
        (λ x. record x { last_message_at = some now }) c s.threads.conversations k.stored) [
          | inl (y, j, h, e) ↦ (
            y,
            same-IsThread a b ns (touch id now s).threads s.threads c y j refl
                (sym (ap (λ (x : Conversation). x.id) e))
                (sym (ap (λ (x : Conversation). x.tenant) e))
                (sym (ap (λ (x : Conversation). x.did) e)) k,
            sym (ap (λ (x : Conversation). x.id) e),
          )
          | inr (j, h) ↦ (
            c,
            same-IsThread a b ns (touch id now s).threads s.threads c c j refl refl refl refl k,
            refl,
          )
        ]

-- The conversation of a set of numbers, by its id, in tables that are sound.
record Found (tenant did : ℕ) (numbers : List Text) (id : ℕ) (t : Threads) : Type 0 where
  fresh : IsFresh t
  unique : IsUnique t
  thread : Conversation
  is_thread : IsThread tenant did numbers t thread
  named : thread.id ≡ id

Calls-Found :
    (tenant did : ℕ) (numbers : List Text) (id : ℕ) {s t : Store}
    → Found tenant did numbers id s.threads
    → Calls s t
    → Found tenant did numbers id t.threads
Calls-Found tenant did numbers id k here = k
Calls-Found tenant did numbers id k (resolve {t} contacts now a b ns r calls h) =
    let f = Calls-Found tenant did numbers id k calls in
    record {
      fresh = resolve_conversation-IsFresh contacts now a b ns t.threads r f.fresh h;
      unique = resolved-IsUnique contacts now a b ns t.threads f.fresh r h f.unique;
      thread = f.thread;
      is_thread =
          resolved-IsThread contacts now a b ns t.threads f.fresh r tenant did numbers f.thread h
            f.is_thread;
      named = f.named;
    }
Calls-Found tenant did numbers id k (message {t} n now calls) =
    let f = Calls-Found tenant did numbers id k calls in
    let (d, i, e) = touched-IsThread n now t tenant did numbers f.thread f.is_thread in
    record {
      fresh = touch-IsFresh n now t f.fresh;
      unique = λ a b ns c c' x y.
          let (p, q, u) = before-IsThread n now t a b ns c x in
          let (p', q', u') = before-IsThread n now t a b ns c' y in
          sym u ∙ f.unique a b ns p p' q q' ∙ u';
      thread = d;
      is_thread = i;
      named = e ∙ f.named;
    }

-- Where the ids in the tables are below the next one and the conversations of a tenant and a DID differ in
-- their participants, a call has returned a conversation, and any calls for any tenants and numbers and any
-- messages have followed: the same numbers, in any order and with the same digits, then resolve to the
-- conversation with the same id, and nothing more is created.
pub resolve_conversation-later :
    (contacts contacts' : List ContactNumber) (now now' tenant did : ℕ)
    (numbers numbers' : List Text) (s s' : Store) (r : Conversation × Threads)
    → IsFresh s.threads
    → IsUnique s.threads
    → Covers numbers numbers'
    → Covers numbers' numbers
    → resolve_conversation contacts now tenant did numbers s.threads ≡ some r
    → Calls (record s { threads = r.1 }) s'
    → (c : Conversation) × (resolve_conversation contacts' now' tenant did numbers' s'.threads
        ≡ some (c, s'.threads))
      × (c.id ≡ r.0.id)
unfolding resolve_conversation found_or_create
resolve_conversation-later contacts contacts' now now' tenant did numbers numbers' s s' r fresh
      unique h k e calls =
    let same = Covers-SameMembers numbers numbers' h k in
    let found = find_thread tenant did (normalized numbers) s.threads in
    let (x, i, q) =
      In-require_number (normalized numbers)
        (found_or_create found contacts now tenant did numbers s.threads) r e in
    let first_thread =
      resolve_conversation-IsThread contacts now tenant did numbers s.threads r fresh e in
    let f =
      Calls-Found tenant did numbers r.0.id
        (record {
          fresh = resolve_conversation-IsFresh contacts now tenant did numbers s.threads r fresh e;
          unique = resolved-IsUnique contacts now tenant did numbers s.threads fresh r e unique;
          thread = r.0;
          is_thread = first_thread;
          named = refl;
        })
        calls in
    let own = IsThread-SameMembers same f.is_thread in
    elim (Option-cases (find_thread tenant did (normalized numbers') s'.threads)) [
      | inl g ↦ absurd (find_thread-none tenant did numbers' s'.threads f.thread g own)
      | inr (d, g) ↦ (
        d,
        rw g (require_number-In (normalized numbers') (d, s'.threads) x (same.to x i)),
        f.unique tenant did numbers' d f.thread
              (find_thread-IsThread tenant did numbers' s'.threads d g) own
            ∙ f.named,
      )
    ]
