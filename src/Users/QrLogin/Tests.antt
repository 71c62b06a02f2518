-- ===== src/Users/QrLogin/Tests.antt =====
-- Tests and instances of the theorems on QR login.
use unified_communication_ba.Common.{ℕ, ◌≡◌, ◌<◌, ◌+◌, refl, some, List, [], ◌∷◌, Text, codes, In}
use unified_communication_ba.Users.QrLogin.{
  approved, credentials, already_consumed, expired_code, still_pending, Tokens, poll, QrRequest,
  initiating, confirming, polling, handle, serve,
}
use unified_communication_ba.Users.QrLogin.Once.{poll-once}
use unified_communication_ba.Users.QrLogin.Unique.{Reached, start, served}
use unified_communication_ba.Users.QrLogin.Granted.{ConfirmedBefore, poll-confirmed}

abbrev code : Text
code = codes "qr1"

-- Opened at 100 and confirmed by user 9 at 150.
abbrev table : Tokens
table = record { token = code; user = some 9; status = approved; expires_at = 400 } ∷ []

abbrev requests : List QrRequest
requests = confirming 9 code 150 ∷ initiating code 100 ∷ []

table-serve : serve (initiating code 100 ∷ confirming 9 code 150 ∷ []) [] ≡ table
unfolding serve
table-serve = refl

poll-pending : (poll code 120 (handle (initiating code 100) []).1).0 ≡ still_pending
unfolding handle poll
poll-pending = refl

poll-expired : poll code 400 table ≡ (expired_code, [])
unfolding poll
poll-expired = refl

poll-table : (poll code 200 table).0 ≡ credentials 9
unfolding poll
poll-table = refl

abbrev between : List QrRequest
between = initiating code 210 ∷ confirming 3 code 220 ∷ polling (codes "qr2") 230 ∷ []

poll-once_example :
    poll code 240 (serve between (poll code 200 table).1)
    ≡ (already_consumed, serve between (poll code 200 table).1)
poll-once_example = poll-once code 200 table 9 between 240 poll-table

table-Reached : Reached requests table
unfolding handle
table-Reached = served (confirming 9 code 150) (served (initiating code 100) start)

poll-confirmed_example :
    (at : ℕ) × In (initiating code at) requests
    × (200 < at + 300)
    × ConfirmedBefore requests code 9 (at + 300)
poll-confirmed_example = poll-confirmed requests table code 200 9 table-Reached poll-table
