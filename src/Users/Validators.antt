-- ===== src/Users/Validators.antt =====
-- apps/users/validators.py, `validate_voicemail_boxes` and `validate_fax_boxes`, over the JSON value of the
-- column: `none` where the validator returns, else the code of the error with the index of the element.
use unified_communication_ba.Common.{
  ℕ, ◌+◌, Bool, true, false, ◌&&◌, not, Option, none, some, List, [], ◌∷◌, Text, codes, nonempty,
  strip, ◌==◌, nat_eq, list_eq, if◌then◌else◌, contains, is_some, or_default,
}
use unified_communication_ba.Json.{
  ℤ, pos, negsuc, Json, null, bool, int, float, str, arr, obj, Items, nil, cons, Fields, end, field,
  get_field, get_or_null,
}
pub mod Voicemail
pub mod Box
pub mod Fax
mod Tests

pub data ValidationError : Type 0 where
  voicemail_boxes_not_list fax_boxes_not_list : ValidationError
  voicemail_box_not_int voicemail_box_negative voicemail_box_duplicate : ℕ → ValidationError
  fax_box_not_dict fax_box_missing_keys fax_box_extra_keys fax_box_invalid_uuid
        fax_box_invalid_name :
      ℕ → ValidationError
  fax_box_invalid_number fax_box_duplicate_uuid : ℕ → ValidationError

unfoldable pub check_voicemail_ids : List ℕ → ℕ → Items → Option ValidationError
unfolding contains
check_voicemail_ids seen idx nil = none
check_voicemail_ids seen idx (cons (int (pos n)) xs) =
    let rest = check_voicemail_ids (n ∷ seen) (idx + 1) xs in
    if contains seen n then some (voicemail_box_duplicate idx) else rest
check_voicemail_ids seen idx (cons (int (negsuc n)) xs) = some (voicemail_box_negative idx)
check_voicemail_ids seen idx (cons null xs) = some (voicemail_box_not_int idx)
check_voicemail_ids seen idx (cons (bool b) xs) = some (voicemail_box_not_int idx)
check_voicemail_ids seen idx (cons (float s) xs) = some (voicemail_box_not_int idx)
check_voicemail_ids seen idx (cons (str s) xs) = some (voicemail_box_not_int idx)
check_voicemail_ids seen idx (cons (arr ys) xs) = some (voicemail_box_not_int idx)
check_voicemail_ids seen idx (cons (obj fs) xs) = some (voicemail_box_not_int idx)

-- `value` if it is a list
abbrev pub items_of : Json → Option Items
items_of (arr xs) = some xs
items_of _ = none

abbrev pub check_list :
    ValidationError → (Items → Option ValidationError) → Option Items → Option ValidationError
check_list e f none = some e
check_list e f (some xs) = f xs

unfoldable pub validate_voicemail_boxes : Json → Option ValidationError
unfolding check_voicemail_ids
validate_voicemail_boxes v =
    check_list voicemail_boxes_not_list (check_voicemail_ids [] 0) (items_of v)

abbrev pub required_keys : List Text
required_keys = codes "fax_uuid" ∷ codes "fax_caller_id_name" ∷ codes "fax_caller_id_number" ∷ []

abbrev pub has_key : Text → Fields → Bool
has_key k fs = is_some (get_field k fs)

unfoldable pub has_required_keys : Fields → Bool
unfolding get_field
has_required_keys fs =
    has_key (codes "fax_uuid") fs
    && (has_key (codes "fax_caller_id_name") fs && has_key (codes "fax_caller_id_number") fs)

-- No key but the required ones.
unfoldable pub no_extra_keys : Fields → Bool
unfolding contains
no_extra_keys end = true
no_extra_keys (field k v fs) = contains required_keys k && no_extra_keys fs

abbrev pub is_text : Json → Bool
is_text (str s) = true
is_text _ = false

abbrev pub text : Json → Text
text (str s) = s
text _ = []

-- `isinstance(x, str) and x.strip()`
unfoldable pub is_filled : Json → Bool
unfolding strip
is_filled j = is_text j && nonempty (strip (text j))

-- What the rest of the list is checked with: the error, or the uuid that is now seen.
pub data FaxBoxCheck : Type 0 where
  refused : ValidationError → FaxBoxCheck
  passed : Text → FaxBoxCheck

unfoldable pub check_values : List Text → ℕ → Json → Json → Json → FaxBoxCheck
unfolding is_filled contains
check_values seen idx uuid name number =
    if not (is_filled uuid)
    then refused (fax_box_invalid_uuid idx)
    else if not (is_text name)
    then refused (fax_box_invalid_name idx)
    else if not (is_filled number)
    then refused (fax_box_invalid_number idx)
    else if contains seen (text uuid)
    then refused (fax_box_duplicate_uuid idx)
    else passed (text uuid)

unfoldable pub check_fields : List Text → ℕ → Fields → FaxBoxCheck
unfolding has_required_keys no_extra_keys check_values get_or_null
check_fields seen idx fs =
    if not (has_required_keys fs)
    then refused (fax_box_missing_keys idx)
    else if not (no_extra_keys fs)
    then refused (fax_box_extra_keys idx)
    else check_values seen idx (get_or_null (codes "fax_uuid") fs)
        (get_or_null (codes "fax_caller_id_name") fs)
        (get_or_null (codes "fax_caller_id_number") fs)

unfoldable pub check_box : List Text → ℕ → Json → FaxBoxCheck
unfolding check_fields
check_box seen idx (obj fs) = check_fields seen idx fs
check_box seen idx null = refused (fax_box_not_dict idx)
check_box seen idx (bool b) = refused (fax_box_not_dict idx)
check_box seen idx (int n) = refused (fax_box_not_dict idx)
check_box seen idx (float s) = refused (fax_box_not_dict idx)
check_box seen idx (str s) = refused (fax_box_not_dict idx)
check_box seen idx (arr xs) = refused (fax_box_not_dict idx)

abbrev pub continue : FaxBoxCheck → (Text → Option ValidationError) → Option ValidationError
continue (refused e) f = some e
continue (passed u) f = f u

unfoldable pub check_fax_boxes : List Text → ℕ → Items → Option ValidationError
unfolding check_box
check_fax_boxes seen idx nil = none
check_fax_boxes seen idx (cons x xs) =
    continue (check_box seen idx x) (λ u. check_fax_boxes (u ∷ seen) (idx + 1) xs)

unfoldable pub validate_fax_boxes : Json → Option ValidationError
unfolding check_fax_boxes
validate_fax_boxes v = check_list fax_boxes_not_list (check_fax_boxes [] 0) (items_of v)
