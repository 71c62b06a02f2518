-- ===== src/Webhooks/Telnyx/Payload.antt =====
-- What the view reads from the JSON of the provider. `none` is an exception: a value that is no `dict` has no
-- `get`, and one that is neither empty nor a `list` has no elements with a `get`. A phone number or a URL that
-- is neither empty nor a text is read as its text, as the columns and `str` take it when it is used.
use unified_communication_ba.Common.{
  Option, none, some, List, [], ◌∷◌, Text, codes, nat_eq, list_eq, if◌then◌else◌, nonempty,
}
use unified_communication_ba.Json.{
  Json, null, bool, int, float, str, arr, obj, Items, nil, cons, Fields, end, get_field,
  get_or_null, or_else, truthy, str_of,
}
use unified_communication_ba.Messaging.{get_of}

-- `x if isinstance(x, dict) else {}`
abbrev pub dict_or_empty : Json → Fields
dict_or_empty (obj fs) = fs
dict_or_empty null = end
dict_or_empty (bool b) = end
dict_or_empty (int n) = end
dict_or_empty (float s) = end
dict_or_empty (str s) = end
dict_or_empty (arr xs) = end

-- The elements of `x or []` in a loop that calls `get` on each.
unfoldable pub list_or_empty : Json → Option Items
unfolding truthy
list_or_empty (arr xs) = some xs
list_or_empty null = some nil
list_or_empty (bool b) = if b then none else some nil
list_or_empty (int n) = if truthy (int n) then none else some nil
list_or_empty (float s) = if truthy (float s) then none else some nil
list_or_empty (str s) = if nonempty s then none else some nil
list_or_empty (obj fs) = if truthy (obj fs) then none else some nil

-- The element is kept where its value is truthy.
abbrev pub keep_text : (Json → Text) → Option Json → Option (List Text) → Option (List Text)
keep_text repr none rest = none
keep_text repr (some v) none = none
keep_text repr (some v) (some ts) = if truthy v then some (str_of repr v ∷ ts) else some ts

-- `[m.get(key) for m in xs if m.get(key)]`
unfoldable pub texts_of : (Json → Text) → Text → Items → Option (List Text)
unfolding get_or_null truthy str_of
texts_of repr key nil = some []
texts_of repr key (cons x xs) = keep_text repr (get_of key x) (texts_of repr key xs)

abbrev pub texts_of_items : (Json → Text) → Text → Option Items → Option (List Text)
texts_of_items repr key none = none
texts_of_items repr key (some xs) = texts_of repr key xs

-- `[m.get(key) for m in (p.get(field) or []) if m.get(key)]`
unfoldable pub texts_under : (Json → Text) → Text → Text → Fields → Option (List Text)
unfolding get_or_null list_or_empty texts_of
texts_under repr field key p = texts_of_items repr key (list_or_empty (get_or_null field p))

abbrev pub text_or_empty : (Json → Text) → Option Json → Text
text_or_empty repr none = []
text_or_empty repr (some v) = if truthy v then str_of repr v else []

abbrev pub number_in : (Json → Text) → Json → Option Text
number_in repr (obj fs) = some (text_or_empty repr (get_field (codes "phone_number") fs))
number_in repr null = none
number_in repr (bool b) = none
number_in repr (int n) = none
number_in repr (float s) = none
number_in repr (str s) = none
number_in repr (arr xs) = none

-- `(p.get("from") or {}).get("phone_number", "")`
unfoldable pub from_number_of : (Json → Text) → Fields → Option Text
unfolding get_field get_or_null or_else str_of truthy
from_number_of repr p = number_in repr (or_else (get_or_null (codes "from") p) (obj end))

abbrev pub or_unknown : Option Json → Json
or_unknown none = str (codes "unknown")
or_unknown (some v) = v

-- `envelope.get("data")`, and its `event_type` and `payload`
unfoldable pub data_of : Fields → Fields
unfolding get_or_null
data_of envelope = dict_or_empty (get_or_null (codes "data") envelope)

unfoldable pub event_of : Fields → Json
unfolding get_field
event_of p = or_unknown (get_field (codes "event_type") p)

unfoldable pub message_of_event : Fields → Fields
unfolding get_or_null
message_of_event p = dict_or_empty (get_or_null (codes "payload") p)
