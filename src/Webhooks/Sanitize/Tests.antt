-- ===== src/Webhooks/Sanitize/Tests.antt =====
-- The theorems of this folder at a payload with a secret two levels down.
use unified_communication_ba.Common.{zero, ◌≡◌, refl, List, [], ◌∷◌, codes}
use unified_communication_ba.Json.{Json, str, arr, obj, nil, cons, end, field}
use unified_communication_ba.Webhooks.Sanitize.{redacted, is_sensitive, sanitize_payload}
use unified_communication_ba.Webhooks.Sanitize.Clean.{IsClean, sanitize_payload-IsClean}
use unified_communication_ba.Webhooks.Sanitize.Paths.{
  Step, key, index, follow, sanitized, follow-sanitize_payload,
}

-- {"event": "x", "accounts": [{"API_Key": "k", "name": "n"}]}
abbrev payload : Json
payload = obj (
    field (codes "event") (str (codes "x")) (
      field (codes "accounts")
        (arr (
          cons
            (obj (
              field (codes "API_Key") (str (codes "k"))
                (field (codes "name") (str (codes "n")) end)))
            nil))
        end))

sanitize-payload :
    sanitize_payload payload
    ≡ obj (
        field (codes "event") (str (codes "x")) (
          field
            (codes "accounts")
            (arr (
              cons
                (obj
                  (field (codes "API_Key") redacted (field (codes "name") (str (codes "n")) end)))
                nil))
            end))
unfolding sanitize_payload is_sensitive
sanitize-payload = refl

sanitize_payload-IsClean_example : IsClean (sanitize_payload payload)
sanitize_payload-IsClean_example = sanitize_payload-IsClean payload

abbrev to_account : List Step
to_account = key (codes "accounts") ∷ index zero ∷ []

follow-sanitize_payload_example :
    follow to_account (sanitize_payload payload) ≡ sanitized (follow to_account payload)
unfolding is_sensitive
follow-sanitize_payload_example = follow-sanitize_payload to_account payload (refl, tt)
