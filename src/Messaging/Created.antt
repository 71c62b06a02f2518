-- ===== src/Messaging/Created.antt =====
-- `resolve_conversation` where it creates a conversation: the new one, and the earlier ones after it.
use unified_communication_ba.Common.{
  ℕ, refl, inl, inr, none, List, [], ◌∷◌, Text, In-append, arith, list_eq, nat_eq,
}
use unified_communication_ba.Contacts.{ContactNumber}
use unified_communication_ba.Messaging.Defs.{Conversation, Participant, Threads}
use unified_communication_ba.Messaging.Resolve.{
  normalized, participant_set, new_participant, new_participants, new_conversation, found_or_create,
}
use unified_communication_ba.Messaging.Sets.{
  SameMembers, In-normalized, normalized-In, In-participant_set, participant_set-In,
}
use unified_communication_ba.Messaging.Same.{
  IsFresh, IsThread, In-new_participants, new_participants-In,
}

module _ (contacts : List ContactNumber) (now tenant did : ℕ) (numbers : List Text)
    (t : Threads) where
  abbrev created : Conversation
  created = new_conversation t.next_id now tenant did (normalized numbers)

  abbrev after : Threads
  after = (found_or_create none contacts now tenant did numbers t).1

  abbrev added : List Participant
  added = new_participants contacts tenant t.next_id numbers

  -- The participants of the new conversation are those that were added for it.
  created-among :
      IsFresh t → SameMembers (participant_set after.participants created) (normalized numbers)
  unfolding found_or_create
  created-among fresh = record {
    to = λ x i.
        let (p, j, e, f) = In-participant_set x after.participants created i in
        elim ((In-append p t.participants added).0 j) [
          | inl k ↦ absurd (ground (arith, fresh.participants p k))
          | inr k ↦
              let (g, l, q) = In-new_participants contacts tenant t.next_id numbers p k in
              rw f (normalized-In p.phone_number numbers l q)
        ];
    of = λ x i.
        let (n, j, q, e) = In-normalized x numbers i in
        rw e (
          participant_set-In (new_participant contacts tenant t.next_id numbers n)
            after.participants created
            ((In-append (new_participant contacts tenant t.next_id numbers n) t.participants
                added).1
              (inr (new_participants-In contacts tenant t.next_id numbers n j q)))
            refl);
  }

  pub created-IsThread : IsFresh t → IsThread tenant did numbers after created
  unfolding found_or_create
  created-IsThread fresh = record {
    stored = (In-append created t.conversations (created ∷ [])).1 (inr (inl refl));
    of_tenant = refl;
    of_did = refl;
    among = created-among fresh;
  }
