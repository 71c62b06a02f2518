-- ===== src/Webhooks/FreeSwitch/Notified.antt =====
-- `did.updated` of the FreeSWITCH webhook (apps/webhooks/views.py): the events for users.
use unified_communication_ba.Common.{
  ℕ, ◌+◌, ◌≡◌, sym, ◌∙◌, inl, inr, true, some, none, List, [], ◌∷◌, ◌++◌, Text, codes, ◌==◌, nat_eq,
  first, select, if◌then◌else◌, Bool-cases,
}
use mathlib.Core.List.{append_assoc, append-nil}
use unified_communication_ba.Json.{bool, str, obj, Fields, end, field}
use unified_communication_ba.Models.{Tenant, Did, UserDid}
use unified_communication_ba.Outbox.{OutboxEvent, pending, user}
use unified_communication_ba.Webhooks.FreeSwitch.State.{Db, Services}
use unified_communication_ba.Webhooks.FreeSwitch.Extensions.{refresh_event}
use unified_communication_ba.Webhooks.FreeSwitch.Dids.{
  notify_users, put_did, did_put, has_did, assigned_user_ids,
}

-- The notice to the user of an assignment.
abbrev pub notice : Services → Tenant → Did → UserDid → ℕ → OutboxEvent
notice w t d r id = record {
  id = id;
  tenant_id = t.id;
  target_type = user;
  target_id = w.uuid_text r.user;
  event_type = codes "did.updated";
  payload = obj (
      field (codes "did_id") (str (w.uuid_text d.id))
        (field (codes "requires_refresh") (bool true) (field (codes "reflect") (bool true) end)));
  created_at = w.now;
  dispatched_at = none;
  status = pending;
}

-- One for each assignment of the DID, with ids from a first one.
pub notices : Services → Tenant → Did → List UserDid → ℕ → List OutboxEvent
notices w t d [] id = []
notices w t d (r ∷ rs) id =
    let others = notices w t d rs id in
    let later = notices w t d rs (id + 1) in
    if r.did == d.id then notice w t d r id ∷ later else others

notify_users-notices :
    (w : Services) (t : Tenant) (d : Did) (rs : List UserDid) (db : Db)
    → (notify_users w t d (assigned_user_ids d rs) db).events
      ≡ db.events ++ notices w t d rs db.next_id
unfolding notify_users refresh_event assigned_user_ids select notices
notify_users-notices w t d [] db = sym (append-nil db.events)
notify_users-notices w t d (r ∷ rs) db = elim (Bool-cases (r.did == d.id)) [
  | inl e ↦ rw e (
      notify_users-notices w t d rs _
      ∙ append_assoc db.events (notice w t d r db.next_id ∷ []) (notices w t d rs (db.next_id + 1)))
  | inr e ↦ rw e (notify_users-notices w t d rs db)
]

-- Where the tenant has a DID with the object id, a change of it adds exactly one pending event for each
-- assignment of that DID to a user, after the events that were there and in the order of the assignments. Its
-- target is the user, its type is did.updated, and its payload names the DID.
pub did_put-notices :
    (w : Services) (p : Fields) (t : Tenant) (object_id : Text) (db : Db) (d : Did)
    → first (has_did t object_id) db.dids ≡ some d
    → (did_put w p t object_id db).events ≡ db.events ++ notices w t d db.user_dids db.next_id
unfolding did_put put_did
did_put-notices w p t object_id db d h = rw h (notify_users-notices w t d db.user_dids _)
