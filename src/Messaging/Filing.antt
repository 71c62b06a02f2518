-- ===== src/Messaging/Filing.antt =====
-- Messages and their conversations (apps/messaging/models.py).
use mathlib.Core.Path.{subst}
use unified_communication_ba.Common.{
  In-update_where, ℕ, ◌≡◌, ◌≢◌, inl, inr, refl, sym, ◌∙◌, some, none, Option, List, [], ◌∷◌, ◌++◌,
  Text, ◌==◌, nat_eq, list_eq, update_where, In, In-append, Bool-cases,
}
use unified_communication_ba.Contacts.{ContactNumber}
use unified_communication_ba.Messaging.Defs.{Conversation, Threads, Message, queued, Store}
use unified_communication_ba.Messaging.Resolve.{
  normalized, find_thread, found_or_create, resolve_conversation,
}
use unified_communication_ba.Messaging.Again.{In-require_number}
use unified_communication_ba.Messaging.Rows.{touch}

-- The conversation of a message is stored, of the tenant and the DID of the message.
abbrev pub Place : List Conversation → Message → Type 0
Place cs m =
    (c : Conversation) × In c cs × (c.id ≡ m.conversation) × (c.tenant ≡ m.tenant) × (c.did ≡ m.did)

-- Every message has its conversation, and none is left waiting to be sent.
pub record IsFiled (s : Store) : Type 0 where
  pub each : (m : Message) → In m s.messages → Place s.threads.conversations m
  pub settled : (m : Message) → In m s.messages → m.status ≢ queued

-- Every conversation is still there, of the same tenant and DID.
pub record KeptThreads (t t' : Threads) : Type 0 where
  pub each :
      (c : Conversation)
      → In c t.conversations
      → (c' : Conversation) × In c' t'.conversations
        × (c'.id ≡ c.id)
        × (c'.tenant ≡ c.tenant)
        × (c'.did ≡ c.did)

pub KeptThreads-trans : {r s t : Threads} → KeptThreads r s → KeptThreads s t → KeptThreads r t
KeptThreads-trans a b = record {
  each = λ c i.
      let (d, j, e, f, g) = a.each c i in
      let (d', k, e', f', g') = b.each d j in (d', k, e' ∙ e, f' ∙ f, g' ∙ g);
}

pub KeptThreads-refl : (t : Threads) → KeptThreads t t
KeptThreads-refl t = record { each = λ c i. (c, i, refl, refl, refl) }

kept_touched :
    (id now : ℕ) (cs : List Conversation) (c : Conversation)
    → In c cs
    → (c' : Conversation) × In c' (
        update_where
          (λ (x : Conversation). x.id == id)
          (λ x. record x { last_message_at = some now })
          cs)
      × (c'.id ≡ c.id)
      × (c'.tenant ≡ c.tenant)
      × (c'.did ≡ c.did)
unfolding update_where
kept_touched id now [] c i = absurd i
kept_touched id now (x ∷ cs) c (inl e) = elim (Bool-cases (x.id == id)) [
  | inl q ↦
      rw q (record x { last_message_at = some now }, inl refl, rw e refl, rw e refl, rw e refl)
  | inr q ↦ rw q (x, inl refl, rw e refl, rw e refl, rw e refl)
]
kept_touched id now (x ∷ cs) c (inr i) =
    let (d, j, e, f, g) = kept_touched id now cs c i in (d, inr j, e, f, g)

pub touch-KeptThreads : (id now : ℕ) (s : Store) → KeptThreads s.threads (touch id now s).threads
unfolding touch
touch-KeptThreads id now s = record { each = kept_touched id now s.threads.conversations }

found_or_create-KeptThreads :
    (o : Option Conversation) (contacts : List ContactNumber) (now tenant did : ℕ)
    (numbers : List Text) (t : Threads)
    → KeptThreads t (found_or_create o contacts now tenant did numbers t).1
unfolding found_or_create
found_or_create-KeptThreads (some c) contacts now tenant did numbers t = KeptThreads-refl t
found_or_create-KeptThreads none contacts now tenant did numbers t = record {
  each = λ c i. (c, (In-append c t.conversations _).1 (inl i), refl, refl, refl);
}

pub resolve_conversation-KeptThreads :
    (contacts : List ContactNumber) (now tenant did : ℕ) (numbers : List Text) (t : Threads)
    (r : Conversation × Threads)
    → resolve_conversation contacts now tenant did numbers t ≡ some r
    → KeptThreads t r.1
unfolding resolve_conversation
resolve_conversation-KeptThreads contacts now tenant did numbers t r h =
    let found = find_thread tenant did (normalized numbers) t in
    let (x, i, e) =
      In-require_number (normalized numbers)
        (found_or_create found contacts now tenant did numbers t) r h in
    subst (λ (r : Conversation × Threads). KeptThreads t r.1) e
      (found_or_create-KeptThreads found contacts now tenant did numbers t)

pub kept-Place :
    {t t' : Threads} (m : Message)
    → KeptThreads t t'
    → Place t.conversations m
    → Place t'.conversations m
kept-Place m k (c, i, e, f, g) =
    let (d, j, e', f', g') = k.each c i in (d, j, e' ∙ e, f' ∙ f, g' ∙ g)

pub append-IsFiled :
    (s s' : Store) (m : Message)
    → IsFiled s
    → KeptThreads s.threads s'.threads
    → s'.messages ≡ s.messages ++ m ∷ []
    → Place s'.threads.conversations m
    → m.status ≢ queued
    → IsFiled s'
append-IsFiled s s' m filed kept e place n = record {
  each = λ x i. elim ((In-append x s.messages (m ∷ [])).0 (rw e at i)) [
    | inl j ↦ kept-Place x kept (filed.each x j)
    | inr (inl q) ↦ subst (Place s'.threads.conversations) (sym q) place
    | inr (inr q) ↦ absurd q
  ];
  settled = λ x i. elim ((In-append x s.messages (m ∷ [])).0 (rw e at i)) [
    | inl j ↦ filed.settled x j
    | inr (inl q) ↦ subst (λ (y : Message). y.status ≢ queued) (sym q) n
    | inr (inr q) ↦ absurd q
  ];
}

pub update-IsFiled :
    (s s' : Store) (m : Message)
    → IsFiled s
    → s' ≡ record s { messages = update_where (λ (x : Message). x.id == m.id) (λ _. m) s.messages }
    → Place s.threads.conversations m
    → m.status ≢ queued
    → IsFiled s'
update-IsFiled s s' m filed e place n =
    let p = λ (x : Message). x.id == m.id in
    subst IsFiled (sym e) (record {
      each = λ x i. elim (In-update_where p (λ _. m) x s.messages i) [
        | inl (y, k, q, f) ↦ subst (Place s.threads.conversations) (sym f) place
        | inr (k, q) ↦ filed.each x k
      ];
      settled = λ x i. elim (In-update_where p (λ _. m) x s.messages i) [
        | inl (y, k, q, f) ↦ subst (λ (z : Message). z.status ≢ queued) (sym f) n
        | inr (k, q) ↦ filed.settled x k
      ];
    })
