-- ===== src/Messaging/Tests.antt =====
-- Tests and instances of the theorems on conversations.
use unified_communication_ba.Common.{
  ◌≡◌, ap, nonempty, refl, inl, inr, false, none, some, List, [], ◌∷◌, Text, codes, arith,
}
use unified_communication_ba.Messaging.Defs.{Conversation, Participant, Threads}
use unified_communication_ba.Messaging.Resolve.{found_or_create, resolve_conversation}
use unified_communication_ba.Contacts.{digits_of}
use unified_communication_ba.Messaging.Defs.{Store}
use unified_communication_ba.Messaging.Rows.{touch}
use unified_communication_ba.Messaging.Unique.{IsUnique}
use unified_communication_ba.Messaging.Later.{
  Covers, Calls, here, message, resolve, resolve_conversation-later,
}
use unified_communication_ba.Messaging.Same.{IsFresh, IsThread}
use unified_communication_ba.Messaging.Again.{resolve_conversation-IsThread}

-- A conversation of tenant 1 on DID 4 with one number.
abbrev one : Conversation
one = record {
  id = 3;
  tenant = 1;
  did = 4;
  is_group = false;
  last_message_at = some 20;
  created_at = 10;
}

abbrev alice : Participant
alice = record { conversation = 3; phone_number = codes "+15550100"; contact_id = none }

abbrev threads : Threads
threads = record { conversations = one ∷ []; participants = alice ∷ []; next_id = 7 }

threads-IsFresh : IsFresh threads
threads-IsFresh = record {
  conversations = λ c i. elim i [ inl e ↦ rw e (ground arith) | inr n ↦ absurd n ];
  participants = λ p i. elim i [ inl e ↦ rw e (ground arith) | inr n ↦ absurd n ];
}

abbrev two_numbers : List Text
two_numbers = codes "+15550100" ∷ codes "+15550111" ∷ []

abbrev other_spelling : List Text
other_spelling = codes "1 555 0111" ∷ codes "1 555 0100" ∷ codes "" ∷ []

abbrev group : Conversation × Threads
group = found_or_create none [] 30 1 4 two_numbers threads

resolve-alice :
    resolve_conversation [] 30 1 4 (codes "1 555 0100" ∷ []) threads ≡ some (one, threads)
unfolding resolve_conversation
resolve-alice = refl

resolve-nobody : resolve_conversation [] 30 1 4 (codes "" ∷ []) threads ≡ none
unfolding resolve_conversation
resolve-nobody = refl

resolve-group : resolve_conversation [] 30 1 4 two_numbers threads ≡ some group
unfolding resolve_conversation found_or_create
resolve-group = refl

resolve_conversation-IsThread_example : IsThread 1 4 two_numbers group.1 group.0
resolve_conversation-IsThread_example =
    resolve_conversation-IsThread [] 30 1 4 two_numbers threads group threads-IsFresh resolve-group

threads-IsUnique : IsUnique threads
threads-IsUnique a b ns c d k l = elim k.stored [
  | inl e ↦ elim l.stored [ inl f ↦ rw e (rw f refl) | inr n ↦ absurd n ]
  | inr n ↦ absurd n
]

spelled : Covers two_numbers other_spelling
unfolding digits_of
spelled n (inl e) h = (codes "1 555 0100", inr (inl refl), refl, ap digits_of e)
spelled n (inr (inl e)) h = (codes "1 555 0111", inl refl, refl, ap digits_of e)
spelled n (inr (inr i)) h = absurd i

spelled_back : Covers other_spelling two_numbers
unfolding digits_of
spelled_back n (inl e) h = (codes "+15550111", inr (inl refl), refl, ap digits_of e)
spelled_back n (inr (inl e)) h = (codes "+15550100", inl refl, refl, ap digits_of e)
spelled_back n (inr (inr (inl e))) h = absurd (cc (ap nonempty e, h))
spelled_back n (inr (inr (inr i))) h = absurd i

abbrev store : Store
store = record {
  threads = threads;
  messages = [];
  media = [];
  read_states = [];
  events = [];
  next_id = 1;
}

abbrev grouped : Store
grouped = record store { threads = group.1 }

-- A message to Alice, and a call for her number alone.
abbrev messaged : Store
messaged = touch 3 35 grouped

resolve-alice_later :
    resolve_conversation [] 36 1 4 (codes "1 555 0100" ∷ []) messaged.threads
    ≡ some (record one { last_message_at = some 35 }, messaged.threads)
unfolding resolve_conversation found_or_create touch
resolve-alice_later = refl

two_requests : Calls grouped messaged
two_requests =
    resolve [] 36 1 4 (codes "1 555 0100" ∷ [])
      (record one { last_message_at = some 35 }, messaged.threads) (message 3 35 here)
      resolve-alice_later

resolve_conversation-later_example :
    (c : Conversation) × (resolve_conversation [] 40 1 4 other_spelling messaged.threads
      ≡ some (c, messaged.threads))
    × (c.id ≡ group.0.id)
resolve_conversation-later_example =
    resolve_conversation-later [] [] 30 40 1 4 two_numbers other_spelling store messaged group
      threads-IsFresh threads-IsUnique spelled spelled_back resolve-group two_requests
