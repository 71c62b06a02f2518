-- ===== src/Webhooks/FreeSwitch/Extensions.antt =====
-- `extension.created`, `extension.updated` and `extension.deleted`, for the tenant of the event. The unique
-- constraints of the table (apps/extensions/models.py) refuse a row: `none`.
use unified_communication_ba.Common.{
  ℕ, ◌+◌, Bool, true, ◌&&◌, ◌||◌, not, Option, none, some, [], ◌∷◌, ◌++◌, Text, codes, ◌==◌, nat_eq,
  list_eq, if◌then◌else◌, nonempty, first, any, select, update_where, take,
}
use unified_communication_ba.Json.{
  Json, null, bool, int, float, str, arr, obj, Fields, end, field, get_or_null, or_else, truthy,
}
use unified_communication_ba.Models.{Tenant, Extension}
use unified_communication_ba.Outbox.{OutboxEvent, pending, user}
use unified_communication_ba.Webhooks.FreeSwitch.State.{Db, Services, and_then}
use unified_communication_ba.Webhooks.FreeSwitch.Payload.{text_or, encrypt_or}

-- Another row of the tenant with the object id or the number.
abbrev pub clashes : Extension → Extension → Bool
clashes e x =
    not (x.id == e.id)
    && (x.tenant == e.tenant
        && (x.freeswitch_object_id == e.freeswitch_object_id
            || x.extension_number == e.extension_number))

-- `ext.save()`
unfoldable pub save_extension : Extension → Db → Option Db
unfolding any update_where
save_extension e db =
    if any (clashes e) db.extensions
    then none
    else some (record db {
      extensions = update_where (λ (x : Extension). x.id == e.id) (λ _. e) db.extensions;
    })

-- `Extension.objects.create(...)`
unfoldable pub create_extension : Extension → Db → Option Db
unfolding any
create_extension e db =
    if any (clashes e) db.extensions
    then none
    else some (record db { extensions = db.extensions ++ e ∷ []; next_id = db.next_id + 1 })

abbrev pub has_object : Tenant → Text → Extension → Bool
has_object t object_id e = e.tenant == t.id && e.freeswitch_object_id == object_id

-- The refresh notice to a user.
unfoldable pub refresh_event : Services → Tenant → ℕ → Text → Text → ℕ → ℕ → OutboxEvent
refresh_event w t owner event_type key object id = record {
  id = id;
  tenant_id = t.id;
  target_type = user;
  target_id = w.uuid_text owner;
  event_type = event_type;
  payload = obj (
      field key (str (w.uuid_text object))
        (field (codes "requires_refresh") (bool true) (field (codes "reflect") (bool true) end)));
  created_at = w.now;
  dispatched_at = none;
  status = pending;
}

-- The values that an event or the server gives for an extension.
pub record Given : Type 0 where
  pub number : Json
  pub sip_username : Json
  pub sip_password : Json
  pub transport : Json

unfoldable pub given_by_event : Fields → Given
unfolding or_else get_or_null
given_by_event p = record {
  number = or_else (get_or_null (codes "extension_number") p) (get_or_null (codes "phone") p);
  sip_username = get_or_null (codes "sip_username") p;
  sip_password = or_else (get_or_null (codes "sip_password") p) (get_or_null (codes "password") p);
  transport = or_else (get_or_null (codes "transport_type") p) (get_or_null (codes "transport") p);
}

-- The server does not send the number.
unfoldable pub given_by_server : Fields → Given
unfolding or_else get_or_null
given_by_server p = record {
  number = null;
  sip_username = get_or_null (codes "sip_username") p;
  sip_password = or_else (get_or_null (codes "password") p) (get_or_null (codes "sip_password") p);
  transport = or_else (get_or_null (codes "transport_type") p) (get_or_null (codes "transport") p);
}

-- A partial update: what is not given is kept.
unfoldable pub updated_extension : Services → Given → Extension → Option Extension
unfolding text_or encrypt_or truthy
updated_extension w g e =
    and_then (encrypt_or w g.sip_password e.encrypted_sip_password) (λ password. some (record e {
      extension_number =
          if truthy g.number then take 20 (text_or w g.number []) else e.extension_number;
      sip_username = text_or w g.sip_username e.sip_username;
      transport_type = text_or w g.transport e.transport_type;
      encrypted_sip_password = password;
    }))

unfoldable pub new_extension : Services → Given → Tenant → Text → ℕ → Option Extension
unfolding text_or encrypt_or
new_extension w g t object_id id =
    let number = take 20 (text_or w g.number (codes "ext-" ++ take 8 object_id)) in
    and_then (encrypt_or w g.sip_password []) (λ password. some record {
      id = id;
      tenant = t.id;
      user = none;
      freeswitch_object_id = object_id;
      extension_number = number;
      sip_username = text_or w g.sip_username (number ++ codes "-" ++ t.tenant_code);
      encrypted_sip_password = password;
      transport_type = text_or w g.transport (codes "TCP");
    })

-- An update or a creation, by the row that the tenant has for the object id.
unfoldable pub put_extension : Services → Given → Tenant → Text → Option Extension → Db → Option Db
unfolding updated_extension new_extension save_extension create_extension
put_extension w g t object_id (some e) db =
    and_then (updated_extension w g e) (λ e'. save_extension e' db)
put_extension w g t object_id none db =
    and_then (new_extension w g t object_id db.next_id) (λ e. create_extension e db)

unfoldable pub extension_created : Services → Fields → Tenant → Text → Db → Option Db
unfolding given_by_event put_extension first
extension_created w p t object_id db =
    put_extension w (given_by_event p) t object_id (first (has_object t object_id) db.extensions) db

-- An event for the user of the extension, if it has one.
unfoldable pub notify_user : Services → Tenant → Extension → Option ℕ → Db → Db
unfolding refresh_event
notify_user w t e none db = db
notify_user w t e (some u) db = record db {
  events =
      db.events
      ++ refresh_event w t u (codes "extension.updated") (codes "extension_id") e.id db.next_id
        ∷ [];
  next_id = db.next_id + 1;
}

abbrev pub notify_owner : Services → Tenant → Option Extension → Db → Db
notify_owner w t none db = db
notify_owner w t (some e) db = notify_user w t e e.user db

abbrev pub not_empty : Option Text → Option Text
not_empty none = none
not_empty (some key) = if nonempty key then some key else none

-- `get_decrypted_api_key`: `none` is its `ValidationError`.
unfoldable pub get_decrypted_api_key : Services → Tenant → Option Text
get_decrypted_api_key w t =
    if nonempty t.encrypted_api_key then not_empty (w.decrypt t.encrypted_api_key) else none

-- `get_resource`: a tenant without a key is an exception, a query that fails gives null.
unfoldable pub get_resource : Services → Tenant → Text → Option Json
unfolding get_decrypted_api_key
get_resource w t path =
    and_then (get_decrypted_api_key w t) (λ key. some (w.fetch_resource t key path))

-- The sync with what the server gives; only a `dict` has a `get`.
unfoldable pub extension_synced : Services → Json → Tenant → Text → Db → Option Db
unfolding given_by_server put_extension first
extension_synced w null t object_id db = some db
extension_synced w (bool b) t object_id db = none
extension_synced w (int n) t object_id db = none
extension_synced w (float s) t object_id db = none
extension_synced w (str s) t object_id db = none
extension_synced w (arr xs) t object_id db = none
extension_synced w (obj p) t object_id db =
    let row = first (has_object t object_id) db.extensions in
    and_then (put_extension w (given_by_server p) t object_id row db)
      (λ db'. some (notify_owner w t row db'))

unfoldable pub extension_updated : Services → Tenant → Text → Db → Option Db
unfolding get_resource extension_synced
extension_updated w t object_id db =
    and_then (get_resource w t (codes "extensions/" ++ object_id ++ codes "/"))
      (λ given. extension_synced w given t object_id db)

-- `filter(tenant=tenant, freeswitch_object_id=object_id).delete()`
unfoldable pub extension_deleted : Tenant → Text → Db → Db
unfolding select
extension_deleted t object_id db = record db {
  extensions = select (λ e. not (has_object t object_id e)) db.extensions;
}
