-- ===== src/Messaging/Resolve.antt =====
-- apps/messaging/services.py, `normalize_number` and `resolve_conversation`.
use unified_communication_ba.Common.{
  ℕ, ◌+◌, Bool, true, false, ◌&&◌, ◌||◌, Option, none, some, List, [], ◌∷◌, ◌++◌, map, Text,
  nonempty, select, first, length, contains, dedupe, ◌==◌, nat_eq, list_eq, option_eq, ltb, leb,
  get, sort_by,
}
use unified_communication_ba.Contacts.{ContactNumber, digits_of, build_contact_lookup}
use unified_communication_ba.Messaging.Defs.{Conversation, Participant, Threads}

-- Both branches of the source return the digits.
unfoldable pub normalize_number : Text → Text
unfolding digits_of
normalize_number raw = digits_of raw

-- `{normalize_number(n) for n in participant_numbers if n}`, as a list
unfoldable pub normalized : List Text → List Text
unfolding normalize_number select dedupe
normalized numbers = dedupe (map normalize_number (select nonempty numbers))

-- `{normalize_number(p.phone_number) for p in convo.participants.all()}`, as a list
unfoldable pub participant_set : List Participant → Conversation → List Text
unfolding normalize_number select dedupe
participant_set ps c = dedupe (
    map (λ (p : Participant). normalize_number p.phone_number)
      (select (λ (p : Participant). p.conversation == c.id) ps))

unfoldable pub subset : List Text → List Text → Bool
unfolding contains
subset [] b = true
subset (x ∷ a) b = contains b x && subset a b

-- `sorted(a) == sorted(b)` for sets: they have the same elements.
unfoldable pub same_set : List Text → List Text → Bool
unfolding subset
same_set a b = subset a b && subset b a

-- `-last_message_at`, where a missing time comes first, then `-created_at`
unfoldable pub newer : Option ℕ → Option ℕ → Bool
newer none none = false
newer none (some b) = true
newer (some a) none = false
newer (some a) (some b) = ltb b a

unfoldable pub more_recent : Conversation → Conversation → Bool
unfolding newer
more_recent a b =
    newer a.last_message_at b.last_message_at
    || (a.last_message_at == b.last_message_at && leb b.created_at a.created_at)

unfoldable pub recent_first : List Conversation → List Conversation
unfolding more_recent sort_by
recent_first = sort_by more_recent

unfoldable pub candidates : ℕ → ℕ → List Conversation → List Conversation
unfolding recent_first select
candidates tenant did cs =
    recent_first (select (λ (c : Conversation). c.tenant == tenant && c.did == did) cs)

-- The loop: the first candidate with the same participants.
unfoldable pub find_thread : ℕ → ℕ → List Text → Threads → Option Conversation
unfolding candidates participant_set same_set first
find_thread tenant did numbers t =
    first (λ c. same_set (participant_set t.participants c) numbers)
      (candidates tenant did t.conversations)

unfoldable pub new_participant : List ContactNumber → ℕ → ℕ → List Text → Text → Participant
unfolding build_contact_lookup get
new_participant contacts tenant id numbers n = record {
  conversation = id;
  phone_number = n;
  contact_id = get n (build_contact_lookup contacts tenant numbers);
}

-- The participants of a new conversation: each number once, none empty.
unfoldable pub new_participants : List ContactNumber → ℕ → ℕ → List Text → List Participant
unfolding new_participant select dedupe
new_participants contacts tenant id numbers =
    map (new_participant contacts tenant id numbers) (select nonempty (dedupe numbers))

abbrev pub new_conversation : ℕ → ℕ → ℕ → ℕ → List Text → Conversation
new_conversation id now tenant did numbers = record {
  id = id;
  tenant = tenant;
  did = did;
  is_group = ltb 1 (length numbers);
  last_message_at = some now;
  created_at = now;
}

-- The conversation to return, or the creation of one.
unfoldable pub found_or_create :
    Option Conversation
    → List ContactNumber
    → ℕ
    → ℕ
    → ℕ
    → List Text
    → Threads
    → Conversation × Threads
unfolding normalized new_participants
found_or_create (some c) contacts now tenant did numbers t = (c, t)
found_or_create none contacts now tenant did numbers t =
    let c = new_conversation t.next_id now tenant did (normalized numbers) in
    (
      c,
      record {
        conversations = t.conversations ++ c ∷ [];
        participants = t.participants ++ new_participants contacts tenant t.next_id numbers;
        next_id = t.next_id + 1;
      },
    )

-- `none` is the `ValueError` for a list without a number.
unfoldable pub require_number : List Text → Conversation × Threads → Option (Conversation × Threads)
require_number [] r = none
require_number (n ∷ ns) r = some r

unfoldable pub resolve_conversation :
    List ContactNumber → ℕ → ℕ → ℕ → List Text → Threads → Option (Conversation × Threads)
unfolding normalized find_thread found_or_create require_number
resolve_conversation contacts now tenant did numbers t = require_number (normalized numbers) (
    found_or_create (find_thread tenant did (normalized numbers) t) contacts now tenant did numbers
      t)
