-- ===== src/Webhooks/Sanitize.antt =====
-- apps/webhooks/views.py, `sanitize_payload`: secrets are removed before a payload is stored.
pub mod Clean
pub mod Paths
mod Tests
use unified_communication_ba.Common.{
  ℕ, Bool, true, false, ◌≡◌, refl, ap, List, [], ◌∷◌, Text, codes, lower, contains, list_eq, nat_eq,
  arith, if◌then◌else◌, Bool-cases, inl, inr,
}
use unified_communication_ba.Json.{
  Json, null, bool, int, float, str, arr, obj, Items, nil, cons, Fields, end, field,
}

abbrev pub sensitive_keys : List Text
sensitive_keys =
    codes "api_key" ∷ codes "password" ∷ codes "sip_password" ∷ codes "secret" ∷ codes "token" ∷ []

abbrev pub redacted : Json
redacted = str (codes "[REDACTED]")

-- `key.lower() in SENSITIVE_KEYS`
unfoldable pub is_sensitive : Text → Bool
unfolding lower contains
is_sensitive key = contains sensitive_keys (lower key)

unfoldable mutual
  pub sanitize_payload : Json → Json
  sanitize_payload (obj fs) = obj (sanitize_fields fs)
  sanitize_payload (arr xs) = arr (sanitize_items xs)
  sanitize_payload null = null
  sanitize_payload (bool b) = bool b
  sanitize_payload (int n) = int n
  sanitize_payload (float s) = float s
  sanitize_payload (str s) = str s

  -- `[sanitize_payload(item) for item in obj]`
  pub sanitize_items : Items → Items
  sanitize_items nil = nil
  sanitize_items (cons x xs) = cons (sanitize_payload x) (sanitize_items xs)

  -- the loop over `obj.items()`; a value that is no dict and no list is returned as it is
  pub sanitize_fields : Fields → Fields
  sanitize_fields end = end
  sanitize_fields (field k v fs) =
      field k (if is_sensitive k then redacted else sanitize_payload v) (sanitize_fields fs)
