-- ===== src/Messaging/Sets.antt =====
-- The sets of numbers that `resolve_conversation` compares, by their members.
use unified_communication_ba.Common.{
  ℕ, ◌≡◌, ◌↔◌, refl, inl, inr, Bool, true, ◌&&◌, List, [], ◌∷◌, map, Text, nonempty, select,
  contains_iff, In, In-select, In-dedupe, In-map, map-In, arith, list_eq, nat_eq, ◌==◌, nat_beq_iff,
  In-sort_by,
}
use unified_communication_ba.Messaging.Defs.{Conversation, Participant}
use unified_communication_ba.Messaging.Resolve.{
  normalize_number, normalized, participant_set, subset, same_set, recent_first, candidates,
  more_recent,
}

-- Two lists with the same members.
pub record SameMembers (a b : List Text) : Type 0 where
  pub to : (x : Text) → In x a → In x b
  pub of : (x : Text) → In x b → In x a

subset-In : (a b : List Text) → subset a b ≡ true → (x : Text) → In x a → In x b
unfolding subset
subset-In [] b h x i = absurd i
subset-In (y ∷ a) b h x (inl e) = (contains_iff b x).0 (rw e (ground arith))
subset-In (y ∷ a) b h x (inr i) = subset-In a b (ground arith) x i

subset_of-In : (a b : List Text) → ((x : Text) → In x a → In x b) → subset a b ≡ true
unfolding subset
subset_of-In [] b h = refl
subset_of-In (y ∷ a) b h =
    ground (arith, (contains_iff b y).1 (h y (inl refl)), subset_of-In a b (λ x i. h x (inr i)))

pub same_set-SameMembers : (a b : List Text) → same_set a b ≡ true → SameMembers a b
unfolding same_set
same_set-SameMembers a b h = record {
  to = subset-In a b (ground arith);
  of = subset-In b a (ground arith);
}

pub SameMembers-same_set : (a b : List Text) → SameMembers a b → same_set a b ≡ true
unfolding same_set
SameMembers-same_set a b h = ground (arith, subset_of-In a b h.to, subset_of-In b a h.of)

pub SameMembers-symm : {a b : List Text} → SameMembers a b → SameMembers b a
SameMembers-symm h = record { to = h.of; of = h.to }

pub SameMembers-trans : {a b c : List Text} → SameMembers a b → SameMembers b c → SameMembers a c
SameMembers-trans h k = record { to = λ x i. k.to x (h.to x i); of = λ x i. h.of x (k.of x i) }

-- A member of `normalized` is the digits of a number that is not empty.
pub In-normalized :
    (x : Text) (numbers : List Text)
    → In x (normalized numbers)
    → (n : Text) × In n numbers × (nonempty n ≡ true) × (x ≡ normalize_number n)
unfolding normalized
In-normalized x numbers i =
    let (n, j, e) =
      In-map normalize_number x (select nonempty numbers)
        ((In-dedupe x (map normalize_number (select nonempty numbers))).0 i) in
    let (k, p) = (In-select nonempty n numbers).0 j in (n, k, p, e)

pub normalized-In :
    (n : Text) (numbers : List Text)
    → In n numbers
    → nonempty n ≡ true
    → In (normalize_number n) (normalized numbers)
unfolding normalized
normalized-In n numbers i p =
    (In-dedupe (normalize_number n) (map normalize_number (select nonempty numbers))).1 (
      map-In normalize_number n (select nonempty numbers) ((In-select nonempty n numbers).1 (i, p)))

abbrev number_of : Participant → Text
number_of p = normalize_number p.phone_number

abbrev belongs : Conversation → Participant → Bool
belongs c p = p.conversation == c.id

pub In-participant_set :
    (x : Text) (ps : List Participant) (c : Conversation)
    → In x (participant_set ps c)
    → (p : Participant) × In p ps × (p.conversation ≡ c.id) × (x ≡ normalize_number p.phone_number)
unfolding participant_set
In-participant_set x ps c i =
    let (p, j, e) =
      In-map number_of x (select (belongs c) ps)
        ((In-dedupe x (map number_of (select (belongs c) ps))).0 i) in
    let (k, q) = (In-select (belongs c) p ps).0 j in
    (p, k, (nat_beq_iff p.conversation c.id).0 q, e)

pub participant_set-In :
    (p : Participant) (ps : List Participant) (c : Conversation)
    → In p ps
    → p.conversation ≡ c.id
    → In (normalize_number p.phone_number) (participant_set ps c)
unfolding participant_set
participant_set-In p ps c i e =
    (In-dedupe (number_of p) (map number_of (select (belongs c) ps))).1 (
      map-In number_of p (select (belongs c) ps)
        ((In-select (belongs c) p ps).1 (i, (nat_beq_iff p.conversation c.id).1 e)))

-- The candidates are the conversations of the tenant and the DID.
pub In-candidates :
    (tenant did : ℕ) (c : Conversation) (cs : List Conversation)
    → In c (candidates tenant did cs) ↔ (In c cs × (c.tenant ≡ tenant) × (c.did ≡ did))
unfolding candidates recent_first
In-candidates tenant did c cs = ground (
  arith,
  In-sort_by more_recent c (select (λ (c : Conversation). c.tenant == tenant && c.did == did) cs),
  In-select (λ (c : Conversation). c.tenant == tenant && c.did == did) c cs,
  nat_beq_iff c.tenant tenant,
  nat_beq_iff c.did did,
)
