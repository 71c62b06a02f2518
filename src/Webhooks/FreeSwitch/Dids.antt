-- ===== src/Webhooks/FreeSwitch/Dids.antt =====
-- `did.created`, `did.updated` and `did.deleted`, for the tenant of the event. The deletion of a DID also
-- deletes its assignments to users.
use unified_communication_ba.Common.{
  ℕ, ◌+◌, Bool, true, false, ◌&&◌, not, Option, none, some, List, [], ◌∷◌, ◌++◌, Text, codes, ◌==◌,
  nat_eq, list_eq, if◌then◌else◌, first, select, update_where, take, contains, map,
}
use unified_communication_ba.Json.{Json, null, Fields, get_or_null, or_else, truthy}
use unified_communication_ba.Models.{Tenant, Did, UserDid}
use unified_communication_ba.Webhooks.FreeSwitch.State.{Db, Services}
use unified_communication_ba.Webhooks.FreeSwitch.Payload.{py_str, text_or}
use unified_communication_ba.Webhooks.FreeSwitch.Extensions.{refresh_event}

unfoldable pub did_number_of : Fields → Json
unfolding get_or_null or_else
did_number_of p =
    or_else
      (or_else (or_else (get_or_null (codes "did_number") p) (get_or_null (codes "number") p))
        (get_or_null (codes "phone") p))
      (get_or_null (codes "did") p)

unfoldable pub did_name_of : Fields → Json
unfolding get_or_null or_else
did_name_of p = or_else (get_or_null (codes "did_name") p) (get_or_null (codes "name") p)

abbrev pub is_null : Json → Bool
is_null null = true
is_null _ = false

abbrev pub has_did : Tenant → Text → Did → Bool
has_did t object_id d = d.tenant == t.id && d.freeswitch_object_id == object_id

unfoldable pub updated_did : Services → Fields → Did → Did
unfolding did_number_of did_name_of text_or py_str truthy
updated_did w p d = record d {
  number = if truthy (did_number_of p) then take 20 (text_or w (did_number_of p) []) else d.number;
  name = if is_null (did_name_of p) then d.name else take 255 (py_str w (did_name_of p));
}

unfoldable pub new_did : Services → Fields → Tenant → Text → ℕ → Did
unfolding did_number_of did_name_of text_or
new_did w p t object_id id = record {
  id = id;
  tenant = t.id;
  department = none;
  freeswitch_object_id = object_id;
  number = take 20 (text_or w (did_number_of p) (codes "did-" ++ take 8 object_id));
  name = take 255 (text_or w (did_name_of p) []);
  account = none;
}

-- `UserDID.objects.filter(did=did).values_list("user_id", flat=True)`
unfoldable pub assigned_user_ids : Did → List UserDid → List ℕ
unfolding select
assigned_user_ids d rows =
    map (λ (r : UserDid). r.user) (select (λ (r : UserDid). r.did == d.id) rows)

-- One event for each of the users.
unfoldable pub notify_users : Services → Tenant → Did → List ℕ → Db → Db
unfolding refresh_event
notify_users w t d [] db = db
notify_users w t d (u ∷ us) db = notify_users w t d us (record db {
  events =
      db.events ++ refresh_event w t u (codes "did.updated") (codes "did_id") d.id db.next_id ∷ [];
  next_id = db.next_id + 1;
})

unfoldable pub put_did : Services → Fields → Tenant → Text → Option Did → Db → Db
unfolding updated_did new_did notify_users assigned_user_ids update_where
put_did w p t object_id (some d) db =
    notify_users w t d (assigned_user_ids d db.user_dids) (record db {
      dids = update_where (λ (x : Did). x.id == d.id) (λ _. updated_did w p d) db.dids;
    })
put_did w p t object_id none db = record db {
  dids = db.dids ++ new_did w p t object_id db.next_id ∷ [];
  next_id = db.next_id + 1;
}

unfoldable pub did_put : Services → Fields → Tenant → Text → Db → Db
unfolding put_did first
did_put w p t object_id db = put_did w p t object_id (first (has_did t object_id) db.dids) db

unfoldable pub did_deleted : Tenant → Text → Db → Db
unfolding select contains
did_deleted t object_id db =
    let gone = map (λ (d : Did). d.id) (select (has_did t object_id) db.dids) in
    record db {
      dids = select (λ d. not (has_did t object_id d)) db.dids;
      user_dids = select (λ (r : UserDid). not (contains gone r.did)) db.user_dids;
    }
