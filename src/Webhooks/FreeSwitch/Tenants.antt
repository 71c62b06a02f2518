-- ===== src/Webhooks/FreeSwitch/Tenants.antt =====
-- Which tenant an event is about, and the events that provision tenants.
use unified_communication_ba.Common.{
  ℕ, ◌+◌, Bool, true, false, not, Option, none, some, List, [], ◌∷◌, ◌++◌, Text, codes, strip,
  nonempty, ◌==◌, nat_eq, list_eq, if◌then◌else◌, first, select, sort_by, update_where, Dict,
}
use unified_communication_ba.Json.{str, Fields, get_or_null, or_else}
use unified_communication_ba.Models.{Tenant}
use unified_communication_ba.Webhooks.FreeSwitch.State.{Db, Services, and_then}
use unified_communication_ba.Webhooks.FreeSwitch.Payload.{
  py_str, text_or, encrypt_or, tenant_id_of, tenant_code_of,
}

abbrev pub default_tenant_features : Dict Text Bool
default_tenant_features =
    (codes "calling", false) ∷ (codes "messaging", false) ∷ (codes "fax", false) ∷ []

-- `filter(tenant_code=code).first()`, in the order of the tenants' names
unfoldable pub tenant_with_code : Services → Text → List Tenant → Option Tenant
unfolding select sort_by first
tenant_with_code w code ts =
    if nonempty code
    then first (λ _. true)
        (sort_by (λ (a b : Tenant). not (w.name_before b.tenant_name a.tenant_name))
          (select (λ (t : Tenant). t.tenant_code == code) ts))
    else none

abbrev pub or_first : Option Tenant → Option Tenant → Option Tenant
or_first none b = b
or_first (some a) b = some a

unfoldable pub find_tenant : Services → ℕ → Text → List Tenant → Option Tenant
unfolding first tenant_with_code
find_tenant w uuid code ts =
    or_first (first (λ (t : Tenant). t.freeswitch_tenant_uuid == uuid) ts)
      (or_first (tenant_with_code w code ts) (first (λ (t : Tenant). t.id == uuid) ts))

-- `tenant_code or "TENANT"`
abbrev pub code_or_default : Text → Text
code_or_default code = if nonempty code then code else codes "TENANT"

unfoldable pub tenant_name_of : Services → Fields → Text → Text
unfolding text_or get_or_null
tenant_name_of w p code = text_or w (get_or_null (codes "tenant_name") p) (code ++ codes " Tenant")

unfoldable pub new_tenant : Services → Fields → ℕ → Text → ℕ → Tenant
unfolding tenant_name_of
new_tenant w p uuid code id = record {
  id = id;
  freeswitch_tenant_uuid = uuid;
  tenant_code = code_or_default code;
  tenant_name = tenant_name_of w p (code_or_default code);
  encrypted_api_key = [];
  features = default_tenant_features;
  sip_domain = [];
  is_active = true;
  telnyx_messaging_profile_id = [];
}

-- The tenant that was found, or a new one where one may be created.
unfoldable pub found_or_new :
    Services → Fields → ℕ → Text → Bool → Db → Option Tenant → Option Tenant × Db
unfolding new_tenant
found_or_new w p uuid code auto_create db (some t) = (some t, db)
found_or_new w p uuid code auto_create db none =
    let t = new_tenant w p uuid code db.next_id in
    if auto_create
    then (some t, record db { tenants = db.tenants ++ t ∷ []; next_id = db.next_id + 1 })
    else (none, db)

-- A tenant id that is no UUID makes the first filter raise.
unfoldable pub resolve_or_create_tenant :
    Services → Fields → Bool → Db → Option (Option Tenant × Db)
unfolding tenant_id_of tenant_code_of find_tenant found_or_new
resolve_or_create_tenant w p auto_create db =
    if nonempty (tenant_id_of w p)
    then and_then (w.parse_uuid (tenant_id_of w p)) (λ uuid.
      let code = tenant_code_of w p in
      some (found_or_new w p uuid code auto_create db (find_tenant w uuid code db.tenants)))
    else some (none, db)

unfoldable pub domain_of : Services → Fields → Text
unfolding get_or_null or_else py_str strip
domain_of w p = strip (
    py_str w (
      or_else (or_else (get_or_null (codes "sip_domain") p) (get_or_null (codes "domain") p))
        (str [])))

-- The columns that the event gives; a key or a domain that is missing is kept.
unfoldable pub provisioned : Services → Fields → Text → Text → Tenant → Tenant
unfolding tenant_name_of domain_of
provisioned w p code key t = record t {
  tenant_code = code_or_default code;
  tenant_name = tenant_name_of w p (code_or_default code);
  is_active = true;
  encrypted_api_key = key;
  sip_domain = if nonempty (domain_of w p) then domain_of w p else t.sip_domain;
}

-- `update_or_create`
unfoldable pub put_tenant : Services → Fields → ℕ → Text → Option Tenant → Db → Option Db
unfolding encrypt_or get_or_null provisioned new_tenant update_where
put_tenant w p uuid code (some t) db =
    and_then (encrypt_or w (get_or_null (codes "api_key") p) t.encrypted_api_key) (λ key.
      some (record db {
        tenants =
            update_where (λ (u : Tenant). u.id == t.id) (λ _. provisioned w p code key t)
              db.tenants;
      }))
put_tenant w p uuid code none db =
    and_then (encrypt_or w (get_or_null (codes "api_key") p) []) (λ key. some (record db {
      tenants = db.tenants ++ provisioned w p code key (new_tenant w p uuid code db.next_id) ∷ [];
      next_id = db.next_id + 1;
    }))

abbrev pub or_unchanged : Option Db → Db → Db
or_unchanged none db = db
or_unchanged (some db') db = db'

-- An exception is caught, and nothing has been written by then.
unfoldable pub provision_tenant : Services → Fields → Db → Db
unfolding put_tenant tenant_id_of tenant_code_of first
provision_tenant w p db =
    or_unchanged
      (and_then (w.parse_uuid (tenant_id_of w p)) (λ uuid.
        put_tenant w p uuid (tenant_code_of w p)
          (first (λ (t : Tenant). t.freeswitch_tenant_uuid == uuid) db.tenants) db))
      db
