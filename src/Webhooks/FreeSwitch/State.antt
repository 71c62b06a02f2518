-- ===== src/Webhooks/FreeSwitch/State.antt =====
-- The tables that the FreeSWITCH webhook reads and writes, with WebhookLog of apps/webhooks/models.py, and
-- what the view calls outside of the repository's data.
use unified_communication_ba.Common.{ℕ, Bool, Option, none, some, List, Text}
use unified_communication_ba.Json.{Json}
use unified_communication_ba.Models.{Tenant, Extension, Did, UserDid}
use unified_communication_ba.Outbox.{OutboxEvent}

pub data ProcessingStatus : Type 0 where
  pending processing done failed : ProcessingStatus

pub record WebhookLog : Type 0 where
  pub id : ℕ
  pub provider : Text
  pub event_type : Text
  pub object_id : Option Text
  pub tenant_id : Text
  pub tenant_code : Text
  pub provider_timestamp : Option ℕ
  pub payload : Json
  pub processing_status : ProcessingStatus
  pub expires_at : ℕ

-- The ids of new rows are taken from one counter.
pub record Db : Type 0 where
  pub tenants : List Tenant
  pub extensions : List Extension
  pub dids : List Did
  pub user_dids : List UserDid
  pub events : List OutboxEvent
  pub logs : List WebhookLog
  pub next_id : ℕ

-- The clock; `SecretService.encrypt` and `decrypt`, the parser of UUIDs and `parse_datetime`, each `none` where
-- it raises or returns `None`; the JSON that the FreeSWITCH server answers to a key and a path, null where the
-- query fails; Python's `str` of a list or a dict; the text of a UUID; and the collation of the database.
pub record Services : Type 0 where
  pub now : ℕ
  pub encrypt : Json → Option Text
  pub parse_uuid : Text → Option ℕ
  pub decrypt : Text → Option Text
  pub fetch_resource : Tenant → Text → Text → Json
  pub parse_datetime : Json → Option ℕ
  pub repr : Json → Text
  pub uuid_text : ℕ → Text
  pub name_before : Text → Text → Bool

-- A step that may raise an exception: the request then fails and changes nothing.
abbrev pub and_then : {A B : Type 0} → Option A → (A → Option B) → Option B
and_then none f = none
and_then (some a) f = f a
