-- ===== src/Users/Validators/Tests.antt =====
-- Tests and instances of the theorems on the validators.
use unified_communication_ba.Common.{
  ℕ, true, ◌≡◌, ◌↔◌, refl, some, none, List, [], codes, Distinct, nat_eq, list_eq,
}
use unified_communication_ba.Json.{
  Json, int, pos, bool, str, arr, obj, Items, nil, cons, Fields, end, field,
}
use unified_communication_ba.Models.{FaxBox}
use unified_communication_ba.Users.Validators.{
  validate_voicemail_boxes, validate_fax_boxes, voicemail_box_duplicate, voicemail_box_not_int,
  fax_box_duplicate_uuid,
}
use unified_communication_ba.Users.Validators.Voicemail.{int_items, validate_voicemail_boxes_iff}
use unified_communication_ba.Users.Validators.Fax.{AreBoxes, uuids, validate_fax_boxes_iff}

abbrev boxes : Json
boxes = arr (cons (int (pos 101)) (cons (int (pos 7)) nil))

voicemail-accepted : validate_voicemail_boxes boxes ≡ none
unfolding validate_voicemail_boxes
voicemail-accepted = refl

voicemail-bool :
    validate_voicemail_boxes (arr (cons (bool true) nil)) ≡ some (voicemail_box_not_int 0)
unfolding validate_voicemail_boxes
voicemail-bool = refl

voicemail-twice :
    validate_voicemail_boxes (arr (cons (int (pos 7)) (cons (int (pos 7)) nil)))
    ≡ some (voicemail_box_duplicate 1)
unfolding validate_voicemail_boxes
voicemail-twice = refl

validate_voicemail_boxes_iff_example :
    (validate_voicemail_boxes boxes ≡ none)
    ↔ ((ns : List ℕ) × (boxes ≡ arr (int_items ns)) × Distinct ns)
validate_voicemail_boxes_iff_example = validate_voicemail_boxes_iff boxes

abbrev fax_fields : Fields
fax_fields = field (codes "fax_uuid") (str (codes "u1")) (
    field (codes "fax_caller_id_name") (str [])
      (field (codes "fax_caller_id_number") (str (codes "+1555")) end))

abbrev faxes : Json
faxes = arr (cons (obj fax_fields) nil)

fax-accepted : validate_fax_boxes faxes ≡ none
unfolding validate_fax_boxes
fax-accepted = refl

fax-twice :
    validate_fax_boxes (arr (cons (obj fax_fields) (cons (obj fax_fields) nil)))
    ≡ some (fax_box_duplicate_uuid 1)
unfolding validate_fax_boxes
fax-twice = refl

validate_fax_boxes_iff_example : (validate_fax_boxes faxes ≡ none) ↔ (
    (xs : Items) × (faxes ≡ arr xs) × ((bs : List FaxBox) × AreBoxes bs xs × Distinct (uuids bs)))
validate_fax_boxes_iff_example = validate_fax_boxes_iff faxes
