-- ===== src/Webhooks/FreeSwitch/Payload.antt =====
-- What the view reads from the payload.
use unified_communication_ba.Common.{
  ℕ, Bool, false, Option, none, some, [], Text, codes, strip, ◌==◌, nat_eq, list_eq, if◌then◌else◌,
}
use unified_communication_ba.Json.{
  str_of, Json, null, bool, int, float, str, arr, obj, Fields, get_field, get_or_null, or_else,
  truthy,
}
use unified_communication_ba.Webhooks.FreeSwitch.State.{Services}

-- Python's `str(x)`
unfoldable pub py_str : Services → Json → Text
unfolding str_of
py_str w = str_of w.repr

abbrev pub or_value : Option Json → Json → Json
or_value none d = d
or_value (some v) d = v

-- `payload.get("event") or payload.get("event_type", "unknown")`
unfoldable pub event_type_of : Fields → Json
unfolding get_or_null or_else get_field
event_type_of p =
    or_else (get_or_null (codes "event") p)
      (or_value (get_field (codes "event_type") p) (str (codes "unknown")))

unfoldable pub tenant_id_of : Services → Fields → Text
unfolding get_or_null or_else py_str strip
tenant_id_of w p = strip (
    py_str w (
      or_else (or_else (get_or_null (codes "tenant_id") p) (get_or_null (codes "tenant_uuid") p))
        (str [])))

-- Only a missing key gives the default.
unfoldable pub tenant_code_of : Services → Fields → Text
unfolding get_field py_str strip
tenant_code_of w p = strip (py_str w (or_value (get_field (codes "tenant_code") p) (str [])))

unfoldable pub object_id_of : Services → Fields → Text
unfolding get_or_null or_else py_str
object_id_of w p = py_str w (
    or_else
      (or_else
        (or_else (or_else (get_or_null (codes "object_id") p) (get_or_null (codes "call_uuid") p))
          (get_or_null (codes "fax_uuid") p))
        (get_or_null (codes "message_uuid") p))
      (str []))

unfoldable pub provider_timestamp_of : Services → Fields → Option ℕ
unfolding get_or_null or_else truthy
provider_timestamp_of w p =
    let raw =
      or_else (get_or_null (codes "timestamp") p) (get_or_null (codes "provider_timestamp") p) in
    if truthy raw then w.parse_datetime raw else none

-- `str(raw)` if the value is there, else the default
unfoldable pub text_or : Services → Json → Text → Text
unfolding truthy py_str
text_or w raw d = if truthy raw then py_str w raw else d

-- `SecretService.encrypt(raw)` if the value is there, else the default
unfoldable pub encrypt_or : Services → Json → Text → Option Text
unfolding truthy
encrypt_or w raw d = if truthy raw then w.encrypt raw else some d

-- `event_type == name`
unfoldable pub is_event : Text → Json → Bool
is_event name (str s) = s == name
is_event name null = false
is_event name (bool b) = false
is_event name (int n) = false
is_event name (float s) = false
is_event name (arr xs) = false
is_event name (obj fs) = false
