-- ===== src/Users/QrLogin.antt =====
-- apps/users/views.py, the three QR login views, with QRLoginToken of apps/users/models.py. Times are in
-- seconds; the unique token names the row. A request that ends in an exception is `server_error`, and
-- changes nothing, as requests are atomic.
use unified_communication_ba.Common.{
  ℕ, ◌+◌, Bool, true, false, ◌&&◌, Option, none, some, List, [], ◌∷◌, ◌++◌, Text, nonempty, ◌==◌,
  nat_eq, list_eq, leb, if◌then◌else◌, first, any, select, update_where, not,
}
pub mod Spent
pub mod Once
pub mod Unique
pub mod Granted
mod Tests

pub data QrLoginStatus : Type 0 where
  pending approved consumed : QrLoginStatus

pub record QrLoginToken : Type 0 where
  pub token : Text
  pub user : Option ℕ
  pub status : QrLoginStatus
  pub expires_at : ℕ

pub data QrReply : Type 0 where
  created : Text → ℕ → QrReply
  token_required invalid_token expired_code already_consumed : QrReply
  login_approved still_pending server_error : QrReply
  credentials : ℕ → QrReply

abbrev pub Tokens : Type 0
Tokens = List QrLoginToken

-- `timezone.now() >= self.expires_at`
abbrev pub is_expired : ℕ → QrLoginToken → Bool
is_expired now q = leb q.expires_at now

abbrev pub has_token : Text → QrLoginToken → Bool
has_token token q = q.token == token

abbrev pub is_pending : QrLoginStatus → Bool
is_pending pending = true
is_pending approved = false
is_pending consumed = false

-- `qr.delete()`
abbrev pub delete : Text → Tokens → Tokens
delete token ts = select (λ q. not (has_token token q)) ts

abbrev pub expiry_seconds : ℕ
expiry_seconds = 300

abbrev pub opened : Text → ℕ → QrLoginToken
opened token now = record {
  token = token;
  user = none;
  status = pending;
  expires_at = now + expiry_seconds;
}

-- A token that is in the table already breaks the unique constraint.
unfoldable pub initiate : Text → ℕ → Tokens → QrReply × Tokens
unfolding any
initiate token now ts =
    if any (has_token token) ts
    then (server_error, ts)
    else (created token expiry_seconds, ts ++ opened token now ∷ [])

abbrev pub approve : ℕ → QrLoginToken → QrLoginToken
approve user q = record q { user = some user; status = approved }

abbrev pub consume : QrLoginToken → QrLoginToken
consume q = record q { status = consumed }

unfoldable pub confirm_row : ℕ → Text → ℕ → Tokens → Option QrLoginToken → QrReply × Tokens
unfolding select update_where
confirm_row user token now ts none = (invalid_token, ts)
confirm_row user token now ts (some q) =
    if is_expired now q
    then (expired_code, delete token ts)
    else (login_approved, update_where (has_token token) (approve user) ts)

unfoldable pub confirm : ℕ → Text → ℕ → Tokens → QrReply × Tokens
unfolding confirm_row first
confirm user token now ts =
    if nonempty token
    then confirm_row user token now ts (first (λ q. has_token token q && is_pending q.status) ts)
    else (token_required, ts)

-- The answer for a token that has not expired.
unfoldable pub poll_live : Text → Tokens → QrLoginStatus → Option ℕ → QrReply × Tokens
unfolding update_where
poll_live token ts consumed user = (already_consumed, ts)
poll_live token ts pending user = (still_pending, ts)
poll_live token ts approved none = (server_error, ts)
poll_live token ts approved (some user) =
    (credentials user, update_where (has_token token) consume ts)

abbrev pub is_consumed : QrLoginStatus → Bool
is_consumed pending = false
is_consumed approved = false
is_consumed consumed = true

unfoldable pub poll_row : Text → ℕ → Tokens → Option QrLoginToken → QrReply × Tokens
unfolding poll_live select
poll_row token now ts none = (invalid_token, ts)
poll_row token now ts (some q) =
    if is_consumed q.status
    then (already_consumed, ts)
    else if is_expired now q
    then (expired_code, delete token ts)
    else poll_live token ts q.status q.user

unfoldable pub poll : Text → ℕ → Tokens → QrReply × Tokens
unfolding poll_row first
poll token now ts =
    if nonempty token
    then poll_row token now ts (first (has_token token) ts)
    else (token_required, ts)

-- A request to one of the views, with its time.
pub data QrRequest : Type 0 where
  initiating : Text → ℕ → QrRequest
  confirming : ℕ → Text → ℕ → QrRequest
  polling : Text → ℕ → QrRequest

unfoldable pub handle : QrRequest → Tokens → QrReply × Tokens
unfolding initiate confirm poll
handle (initiating token now) ts = initiate token now ts
handle (confirming user token now) ts = confirm user token now ts
handle (polling token now) ts = poll token now ts

-- The table after requests in this order.
unfoldable pub serve : List QrRequest → Tokens → Tokens
unfolding handle
serve [] ts = ts
serve (r ∷ rs) ts = serve rs (handle r ts).1
