-- ===== src/Webhooks/Telnyx/Status.antt =====
-- `_handle_status_update`: the state of a message that was sent.
use unified_communication_ba.Common.{
  Bool, false, ◌&&◌, ◌||◌, Option, none, some, [], Text, codes, ◌==◌, nat_eq, list_eq, option_eq,
  if◌then◌else◌, first, is_some,
}
use unified_communication_ba.Json.{
  Json, null, bool, int, float, str, arr, obj, nil, cons, Fields, get_field, get_or_null, or_else,
  truthy, str_of,
}
use unified_communication_ba.Messaging.{
  Message, sent, delivered, failed, Store, Outside, save_message, id_text,
}

-- `x[0]`, where it has a `get`
abbrev pub first_of : Json → Option Fields
first_of (arr (cons (obj fs) xs)) = some fs
first_of (arr (cons null xs)) = none
first_of (arr (cons (bool b) xs)) = none
first_of (arr (cons (int n) xs)) = none
first_of (arr (cons (float s) xs)) = none
first_of (arr (cons (str s) xs)) = none
first_of (arr (cons (arr ys) xs)) = none
first_of (arr nil) = none
first_of null = none
first_of (bool b) = none
first_of (int n) = none
first_of (float s) = none
first_of (str s) = none
first_of (obj fs) = none

abbrev pub or_status : Fields → Option Fields → Option Json
or_status p none = none
or_status p (some entry) =
    some (or_else (get_or_null (codes "status") entry) (get_or_null (codes "status") p))

-- The status of the first receiver, else that of the message.
unfoldable pub status_of : Fields → Option Json
unfolding get_or_null or_else truthy
status_of p =
    let to = get_or_null (codes "to") p in
    if truthy to then or_status p (first_of to) else some (get_or_null (codes "status") p)

unfoldable pub is_status : Text → Json → Bool
is_status s (str t) = t == s
is_status s null = false
is_status s (bool b) = false
is_status s (int n) = false
is_status s (float t) = false
is_status s (arr xs) = false
is_status s (obj fs) = false

abbrev pub code_text : (Json → Text) → Option Json → Text
code_text repr none = []
code_text repr (some v) = str_of repr v

abbrev pub detail_text : (Json → Text) → Option Json → Option Text
detail_text repr none = some []
detail_text repr (some v) = id_text repr v

-- The message failed with the code and the detail of the first error.
unfoldable pub with_error : Outside → Message → Fields → Message
unfolding get_field str_of id_text
with_error w m e = record m {
  status = failed;
  error_code = some (code_text w.repr (get_field (codes "code") e));
  error_detail = detail_text w.repr (get_field (codes "detail") e);
}

unfoldable pub with_status : Outside → Message → Json → Message
unfolding is_status
with_status w m s =
    if is_status (codes "delivered") s
    then record m { status = delivered; delivered_at = some w.now }
    else if is_status (codes "sent") s
    then record m { status = sent }
    else if is_status (codes "sending_failed") s || is_status (codes "delivery_failed") s
    then record m { status = failed }
    else m

abbrev pub with_first_error : Outside → Message → Option Fields → Option Message
with_first_error w m none = none
with_first_error w m (some e) = some (with_error w m e)

abbrev pub apply_errors : Outside → Message → Json → Json → Option Message
apply_errors w m errors s =
    if truthy errors then with_first_error w m (first_of errors) else some (with_status w m s)

abbrev pub apply_status : Outside → Message → Fields → Option Json → Option Message
apply_status w m p none = none
apply_status w m p (some s) = apply_errors w m (get_or_null (codes "errors") p) s

-- The message with its new state.
unfoldable pub updated_message : Outside → Fields → Message → Option Message
unfolding status_of get_or_null truthy with_error with_status
updated_message w p m = apply_status w m p (status_of p)

abbrev pub save_updated : Option Message → Store → Option Store
save_updated none s = none
save_updated (some m) s = save_message m s

abbrev pub save_found : Outside → Fields → Option Message → Store → Option Store
save_found w p none s = some s
save_found w p (some m) s = save_updated (updated_message w p m) s

abbrev pub has_id : Option Text → Message → Bool
has_id key m = is_some key && m.telnyx_message_id == key

unfoldable pub handle_status_update : Outside → Fields → Store → Option Store
unfolding get_or_null truthy id_text first updated_message save_message
handle_status_update w p s =
    let id = get_or_null (codes "id") p in
    if truthy id then save_found w p (first (has_id (id_text w.repr id)) s.messages) s else some s
