-- ===== src/Webhooks/FreeSwitch/Tests.antt =====
-- Tests and instances of the theorems on the FreeSWITCH webhook.
use unified_communication_ba.Common.{
  ℕ, ◌≡◌, ◌↔◌, refl, sym, ap, ◌∙◌, inl, inr, true, false, Option, none, some, [], ◌∷◌, ◌++◌, Text,
  codes, first, In, or_default, arith,
}
use unified_communication_ba.Json.{null, decimal, str, arr, nil, obj, Fields, end, field}
use unified_communication_ba.Models.{Tenant, Extension, Did}
use unified_communication_ba.Webhooks.Sanitize.{sanitize_payload}
use unified_communication_ba.Webhooks.Sanitize.Clean.{IsClean}
use unified_communication_ba.Webhooks.FreeSwitch.State.{Db, Services, WebhookLog}
use unified_communication_ba.Webhooks.FreeSwitch.Payload.{py_str, event_type_of, object_id_of}
use unified_communication_ba.Webhooks.FreeSwitch.Tenants.{
  default_tenant_features, resolve_or_create_tenant,
}
use unified_communication_ba.Webhooks.FreeSwitch.Extensions.{extension_deleted}
use unified_communication_ba.Webhooks.FreeSwitch.Dids.{has_did, did_put}
use unified_communication_ba.Webhooks.FreeSwitch.Post.{
  Response, bad_request, accepted, extension_deletion, kind_of, post,
}
use unified_communication_ba.Webhooks.FreeSwitch.Logged.{post-logged}
use unified_communication_ba.Webhooks.FreeSwitch.ExtensionRows.{HasKeys, OnlyTenant}
use unified_communication_ba.Webhooks.FreeSwitch.Isolated.{post-OnlyTenant}
use unified_communication_ba.Webhooks.FreeSwitch.Deleted.{stays, post-extension_deletion}
use unified_communication_ba.Webhooks.FreeSwitch.Notified.{notices, did_put-notices}

-- The UUID of a text is its first code here, and a secret is encrypted as a mark.
abbrev parse : Text → Option ℕ
parse [] = none
parse (c ∷ s) = some c

abbrev services : Services
services = record {
  now = 1000;
  encrypt = λ j. some (codes "cipher");
  parse_uuid = parse;
  decrypt = λ s. some s;
  fetch_resource = λ t key path. null;
  parse_datetime = λ j. none;
  repr = λ j. codes "{}";
  uuid_text = decimal;
  name_before = λ a b. false;
}

abbrev acme : Tenant
acme = record {
  id = 1;
  freeswitch_tenant_uuid = 65;
  tenant_code = codes "HVA";
  tenant_name = codes "Acme";
  encrypted_api_key = [];
  features = default_tenant_features;
  sip_domain = [];
  is_active = true;
  telnyx_messaging_profile_id = [];
}

abbrev extension : ℕ → ℕ → Text → Extension
extension id tenant number = record {
  id = id;
  tenant = tenant;
  user = none;
  freeswitch_object_id = codes "obj1";
  extension_number = number;
  sip_username = number;
  encrypted_sip_password = [];
  transport_type = codes "TCP";
}

abbrev line : Did
line = record {
  id = 5;
  tenant = 1;
  department = none;
  freeswitch_object_id = codes "did1";
  number = codes "+1555";
  name = [];
  account = none;
}

-- Two tenants have an extension with the same object id.
abbrev db : Db
db = record {
  tenants = acme ∷ [];
  extensions = extension 3 1 (codes "101") ∷ extension 4 2 (codes "102") ∷ [];
  dids = line ∷ [];
  user_dids = record { user = 8; did = 5 } ∷ record { user = 9; did = 5 } ∷ [];
  events = [];
  logs = [];
  next_id = 20;
}

abbrev payload : Text → Text → Fields
payload event object_id = field (codes "event") (str event) (
    field (codes "tenant_id") (str (codes "A"))
      (field (codes "object_id") (str object_id) (field (codes "password") (str (codes "s3")) end)))

abbrev deletion : Fields
deletion = payload (codes "extension.deleted") (codes "obj1")

abbrev after : Response × Db
after = or_default (post services (obj deletion) db) (bad_request, db)

post-deletion : post services (obj deletion) db ≡ some after
unfolding post
post-deletion = refl

after-extensions : after.1.extensions ≡ extension 4 2 (codes "102") ∷ []
unfolding post extension_deleted
after-extensions = refl

post-list : post services (arr nil) db ≡ some (bad_request, db)
unfolding post
post-list = refl

deletion-kind : kind_of services deletion ≡ extension_deletion
unfolding kind_of
deletion-kind = refl

abbrev id_of : Extension → ℕ
id_of e = e.id

one_extension : (x y : Extension) → In x db.extensions → In y db.extensions → x.id ≡ y.id → x ≡ y
one_extension x y (inl a) (inl b) e = a ∙ sym b
one_extension x y (inr (inl a)) (inr (inl b)) e = a ∙ sym b
one_extension x y (inl a) (inr (inl b)) e = absurd (ground (arith, ap id_of a, ap id_of b))
one_extension x y (inr (inl a)) (inl b) e = absurd (ground (arith, ap id_of a, ap id_of b))
one_extension x y (inr (inr a)) j e = absurd a
one_extension x y (inl a) (inr (inr b)) e = absurd b
one_extension x y (inr (inl a)) (inr (inr b)) e = absurd b

one_did : (x y : Did) → In x db.dids → In y db.dids → x.id ≡ y.id → x ≡ y
one_did x y (inl a) (inl b) e = a ∙ sym b
one_did x y (inr a) j e = absurd a
one_did x y (inl a) (inr b) e = absurd b

db-HasKeys : HasKeys db
db-HasKeys = record { extensions = one_extension; dids = one_did }

post-logged_example :
    (log : WebhookLog) × (after.0 ≡ accepted log.id (event_type_of deletion))
    × (after.1.logs ≡ db.logs ++ log ∷ [])
    × (log.provider ≡ codes "freeswitch")
    × (log.event_type ≡ codes "extension.deleted")
    × (log.expires_at ≡ 173800)
    × (log.payload ≡ sanitize_payload (obj deletion))
    × IsClean log.payload
unfolding py_str event_type_of
post-logged_example = post-logged services deletion db after.1 after.0 post-deletion

post-OnlyTenant_example : (t : ℕ) × OnlyTenant t db after.1
post-OnlyTenant_example = post-OnlyTenant services deletion db after db-HasKeys post-deletion

post-extension_deletion_example :
    (o : Option Tenant) × (resolve_or_create_tenant services deletion false db ≡ some (o, db))
    × (after.1.tenants ≡ db.tenants)
    × (after.1.dids ≡ db.dids)
    × ((e : Extension)
        → In e after.1.extensions
          ↔ (In e db.extensions × (stays o (object_id_of services deletion) e ≡ true)))
post-extension_deletion_example =
    post-extension_deletion services deletion db after deletion-kind post-deletion

abbrev change : Fields
change = payload (codes "did.updated") (codes "did1")

line-first : first (has_did acme (codes "did1")) db.dids ≡ some line
unfolding first
line-first = refl

did_put-notices_example :
    (did_put services change acme (codes "did1") db).events
    ≡ db.events ++ notices services acme line db.user_dids db.next_id
did_put-notices_example = did_put-notices services change acme (codes "did1") db line line-first
