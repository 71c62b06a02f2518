-- ===== src/Messaging/Announced.antt =====
-- `broadcast_message_event` (apps/messaging/services.py): the events that announce a message.
use mathlib.Core.Path.{subst}
use unified_communication_ba.Common.{
  ℕ, ◌+◌, ◌≡◌, ◌↔◌, refl, sym, ap, none, List, [], ◌∷◌, ◌++◌, codes, ◌==◌, nat_eq, nat_beq_iff, In,
  In-map, map-In, In-select, In-dedupe, select, map, Distinct, dedupe-Distinct,
}
use unified_communication_ba.Json.{Json}
use unified_communication_ba.Models.{UserDid}
use unified_communication_ba.Outbox.{OutboxEvent, OutboxTargetType, pending, conversation, user}
use unified_communication_ba.Messaging.Defs.{Message, Media, Store, Directory, Outside}
use unified_communication_ba.Messaging.Broadcast.{
  thread_event, user_event, user_events, user_ids, message_payload, broadcast_message_event,
}
use unified_communication_ba.Messaging.Rows.{touch}

-- The pending event that tells a target of a new message.
abbrev pub notice : Outside → Message → Json → OutboxTargetType → ℕ → ℕ → OutboxEvent
notice w m payload target target_id id = record {
  id = id;
  tenant_id = m.tenant;
  target_type = target;
  target_id = w.uuid_text target_id;
  event_type = codes "message.created";
  payload = payload;
  created_at = w.now;
  dispatched_at = none;
  status = pending;
}

pub notices : Outside → Message → Json → List ℕ → ℕ → List OutboxEvent
notices w m payload [] id = []
notices w m payload (u ∷ us) id = notice w m payload user u id ∷ notices w m payload us (id + 1)

-- One event to the conversation of the message and one to each user that has its DID.
pub record Announced (w : Outside) (dir : Directory) (media : List Media) (m : Message)
    (es : List OutboxEvent) : Type 0 where
  pub users : List ℕ
  pub id : ℕ
  pub each :
      (u : ℕ) → In u users ↔ ((a : UserDid) × In a dir.user_dids × (a.did ≡ m.did) × (a.user ≡ u))
  pub once : Distinct users
  pub events :
      es
      ≡ notice w m (message_payload w media m) conversation m.conversation id
        ∷ notices w m (message_payload w media m) users (id + 1)

user_events-notices :
    (w : Outside) (m : Message) (payload : Json) (us : List ℕ) (id : ℕ)
    → user_events w m payload us id ≡ notices w m payload us id
unfolding user_events user_event notices
user_events-notices w m payload [] id = refl
user_events-notices w m payload (u ∷ us) id =
    ap (λ (es : List OutboxEvent). notice w m payload user u id ∷ es)
      (user_events-notices w m payload us (id + 1))

In-user_ids :
    (rows : List UserDid) (did u : ℕ)
    → In u (user_ids rows did) ↔ ((a : UserDid) × In a rows × (a.did ≡ did) × (a.user ≡ u))
unfolding user_ids
In-user_ids rows did u =
    let of_did = λ (a : UserDid). a.did == did in
    let owner = λ (a : UserDid). a.user in
    (
      λ i.
          let (a, j, e) =
            In-map owner u (select of_did rows)
              ((In-dedupe u (map owner (select of_did rows))).0 i) in
          let (k, q) = (In-select of_did a rows).0 j in (a, k, (nat_beq_iff a.did did).0 q, sym e),
      λ x.
          let (a, i, e, f) = x in
          let j = (In-select of_did a rows).1 (i, (nat_beq_iff a.did did).1 e) in
          subst (λ (n : ℕ). In n (user_ids rows did)) f
            ((In-dedupe a.user (map owner (select of_did rows))).1
              (map-In owner a (select of_did rows) j)),
    )

user_ids-Distinct : (rows : List UserDid) (did : ℕ) → Distinct (user_ids rows did)
unfolding user_ids
user_ids-Distinct rows did = dedupe-Distinct _

pub broadcast-Announced :
    (w : Outside) (dir : Directory) (m : Message) (s : Store)
    → (es : List OutboxEvent) × ((broadcast_message_event w dir m s).events ≡ s.events ++ es)
      × Announced w dir s.media m es
unfolding broadcast_message_event thread_event
broadcast-Announced w dir m s = (
  _,
  refl,
  record {
    users = user_ids dir.user_dids m.did;
    id = s.next_id;
    each = In-user_ids dir.user_dids m.did;
    once = user_ids-Distinct dir.user_dids m.did;
    events =
        ap
          (λ (es : List OutboxEvent).
            notice w m (message_payload w s.media m) conversation m.conversation s.next_id ∷ es)
          (user_events-notices w m (message_payload w s.media m) (user_ids dir.user_dids m.did)
            (s.next_id + 1));
  },
)

pub media-announced :
    (w : Outside) (dir : Directory) (m : Message) (id : ℕ) (s : Store)
    → (broadcast_message_event w dir m (touch id w.now s)).media ≡ (touch id w.now s).media
unfolding broadcast_message_event
media-announced w dir m id s = refl
