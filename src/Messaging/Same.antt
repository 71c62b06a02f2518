-- ===== src/Messaging/Same.antt =====
-- `resolve_conversation` (apps/messaging/services.py): the conversation that it looks for.
use unified_communication_ba.Common.{
  ℕ, ◌≡◌, ◌<◌, refl, true, none, some, List, Text, nonempty, select, dedupe, In, In-select,
  In-dedupe, In-map, map-In, list_eq, nat_eq, first-In, first-none,
}
use unified_communication_ba.Contacts.{ContactNumber}
use unified_communication_ba.Messaging.Defs.{Conversation, Participant, Threads}
use unified_communication_ba.Messaging.Resolve.{
  normalized, participant_set, same_set, candidates, find_thread, new_participant, new_participants,
}
use unified_communication_ba.Messaging.Sets.{
  SameMembers, same_set-SameMembers, SameMembers-same_set, SameMembers-trans, In-candidates,
}

-- Every id in the tables has been handed out.
pub record IsFresh (t : Threads) : Type 0 where
  pub conversations : (c : Conversation) → In c t.conversations → c.id < t.next_id
  pub participants : (p : Participant) → In p t.participants → p.conversation < t.next_id

-- The conversation of a tenant and a DID among a set of numbers.
pub record IsThread (tenant did : ℕ) (numbers : List Text) (t : Threads) (c : Conversation)
    : Type 0 where
  pub stored : In c t.conversations
  pub of_tenant : c.tenant ≡ tenant
  pub of_did : c.did ≡ did
  pub among : SameMembers (participant_set t.participants c) (normalized numbers)

pub In-new_participants :
    (contacts : List ContactNumber) (tenant id : ℕ) (numbers : List Text) (p : Participant)
    → In p (new_participants contacts tenant id numbers)
    → (p.conversation ≡ id) × In p.phone_number numbers × (nonempty p.phone_number ≡ true)
unfolding new_participants new_participant
In-new_participants contacts tenant id numbers p i =
    let (n, j, e) =
      In-map (new_participant contacts tenant id numbers) p (select nonempty (dedupe numbers)) i in
    let (k, q) = (In-select nonempty n (dedupe numbers)).0 j in
    rw e (refl, (In-dedupe n numbers).0 k, q)

pub new_participants-In :
    (contacts : List ContactNumber) (tenant id : ℕ) (numbers : List Text) (n : Text)
    → In n numbers
    → nonempty n ≡ true
    → In
        (new_participant contacts tenant id numbers n)
        (new_participants contacts tenant id numbers)
unfolding new_participants
new_participants-In contacts tenant id numbers n i q =
    map-In (new_participant contacts tenant id numbers) n (select nonempty (dedupe numbers))
      ((In-select nonempty n (dedupe numbers)).1 ((In-dedupe n numbers).1 i, q))

pub find_thread-IsThread :
    (tenant did : ℕ) (numbers : List Text) (t : Threads) (c : Conversation)
    → find_thread tenant did (normalized numbers) t ≡ some c
    → IsThread tenant did numbers t c
unfolding find_thread
find_thread-IsThread tenant did numbers t c h =
    let (i, q) =
      first-In (λ c. same_set (participant_set t.participants c) (normalized numbers)) c
        (candidates tenant did t.conversations) h in
    let (j, e, f) = (In-candidates tenant did c t.conversations).0 i in
    record {
      stored = j;
      of_tenant = e;
      of_did = f;
      among = same_set-SameMembers (participant_set t.participants c) (normalized numbers) q;
    }

-- No conversation is found only where there is none.
pub find_thread-none :
    (tenant did : ℕ) (numbers : List Text) (t : Threads) (c : Conversation)
    → find_thread tenant did (normalized numbers) t ≡ none
    → IsThread tenant did numbers t c
    → ⊥
unfolding find_thread
find_thread-none tenant did numbers t c h k =
    let e =
      first-none (λ c. same_set (participant_set t.participants c) (normalized numbers)) c
        (candidates tenant did t.conversations) h
        ((In-candidates tenant did c t.conversations).1 (k.stored, k.of_tenant, k.of_did)) in
    let f = SameMembers-same_set (participant_set t.participants c) (normalized numbers) k.among in
    cc

-- The conversation depends on the members of the set only.
pub IsThread-SameMembers :
    {tenant did : ℕ} {numbers numbers' : List Text} {t : Threads} {c : Conversation}
    → SameMembers (normalized numbers) (normalized numbers')
    → IsThread tenant did numbers t c
    → IsThread tenant did numbers' t c
IsThread-SameMembers h k = record {
  stored = k.stored;
  of_tenant = k.of_tenant;
  of_did = k.of_did;
  among = SameMembers-trans k.among h;
}
