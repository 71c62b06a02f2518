-- ===== src/Users/Validators/Fax.antt =====
-- Which values `validate_fax_boxes` accepts.
use mathlib.Core.Path.{subst}
use unified_communication_ba.Common.{
  ℕ, ◌≡◌, ◌↔◌, ◌+◌, refl, sym, ap, ◌∙◌, inl, inr, false, Option, none, List, [], ◌∷◌, Text, nat_eq,
  list_eq, list_beq_iff, contains, contains_iff, In, Distinct, arith, Bool-cases, map,
}
use unified_communication_ba.Json.{Json, null, bool, int, float, str, arr, obj, Items, nil, cons}
use unified_communication_ba.Models.{FaxBox}
use unified_communication_ba.Users.Validators.{
  FaxBoxCheck, refused, passed, ValidationError, check_fields, check_box, continue, check_fax_boxes,
  validate_fax_boxes,
}
use unified_communication_ba.Users.Validators.Box.{IsBox, fields-passed, box-passed}

-- The JSON objects of a list of fax boxes.
abbrev pub AreBoxes : List FaxBox → Items → Type 0
AreBoxes [] nil = Unit
AreBoxes (b ∷ bs) (cons (obj fs) xs) = IsBox b fs × AreBoxes bs xs
AreBoxes (b ∷ bs) (cons null xs) = ⊥
AreBoxes (b ∷ bs) (cons (bool _) xs) = ⊥
AreBoxes (b ∷ bs) (cons (int _) xs) = ⊥
AreBoxes (b ∷ bs) (cons (float _) xs) = ⊥
AreBoxes (b ∷ bs) (cons (str _) xs) = ⊥
AreBoxes (b ∷ bs) (cons (arr _) xs) = ⊥
AreBoxes [] (cons _ xs) = ⊥
AreBoxes (b ∷ bs) nil = ⊥

abbrev pub uuids : List FaxBox → List Text
uuids bs = map (λ (b : FaxBox). b.fax_uuid) bs

abbrev Unseen : List Text → List Text → Type 0
Unseen seen us = (u : Text) → In u us → contains seen u ≡ false

Unseen-cons : (u : Text) (seen us : List Text) → Unseen (u ∷ seen) us → contains us u ≡ false
unfolding contains
Unseen-cons u seen us h = elim (Bool-cases (contains us u)) [
  | inl e ↦ absurd (ground (arith, h u ((contains_iff us u).0 e), list_beq_iff u u))
  | inr e ↦ e
]

continue-none :
    (c : FaxBoxCheck) (f : Text → Option ValidationError)
    → continue c f ≡ none
    → (u : Text) × (c ≡ passed u) × (f u ≡ none)
continue-none (refused e) f h = cc
continue-none (passed u) f h = (u, refl, h)

accepted-boxes :
    (seen : List Text) (idx : ℕ) (xs : Items)
    → check_fax_boxes seen idx xs ≡ none
    → (bs : List FaxBox) × AreBoxes bs xs × Distinct (uuids bs) × Unseen seen (uuids bs)
unfolding check_fax_boxes check_box contains
accepted-boxes seen idx nil h = ([], tt, tt, λ u i. absurd i)
accepted-boxes seen idx (cons (obj fs) xs) h =
    let (u, e, f) =
      continue-none (check_fields seen idx fs) (λ u. check_fax_boxes (u ∷ seen) (idx + 1) xs) h in
    let (b, g, k, l) = fields-passed seen idx fs u e in
    let (bs, m, d, n) = accepted-boxes (u ∷ seen) (idx + 1) xs f in
    (
      b ∷ bs,
      (g, m),
      (ap (contains (uuids bs)) k ∙ Unseen-cons u seen (uuids bs) n, d),
      λ v i. elim i [ inl j ↦ ap (contains seen) (j ∙ k) ∙ l | inr j ↦ ground (arith, n v j) ],
    )
accepted-boxes seen idx (cons null xs) h = cc
accepted-boxes seen idx (cons (bool b) xs) h = cc
accepted-boxes seen idx (cons (int n) xs) h = cc
accepted-boxes seen idx (cons (float s) xs) h = cc
accepted-boxes seen idx (cons (str s) xs) h = cc
accepted-boxes seen idx (cons (arr ys) xs) h = cc

boxes-accepted :
    (seen : List Text) (idx : ℕ) (bs : List FaxBox) (xs : Items)
    → AreBoxes bs xs
    → Distinct (uuids bs)
    → Unseen seen (uuids bs)
    → check_fax_boxes seen idx xs ≡ none
unfolding check_fax_boxes check_box contains
boxes-accepted seen idx [] nil a d u = refl
boxes-accepted seen idx (b ∷ bs) (cons (obj fs) xs) a d u =
    let id = b.fax_uuid in
    let unseen : Unseen (id ∷ seen) (uuids bs) = λ v i. ground (
      arith,
      u v (inr i),
      list_beq_iff v id,
      contains_iff (uuids bs) id,
      ap (λ w. In w (uuids bs)),
    ) in
    rw (box-passed seen idx b fs a.0 (u id (inl refl)))
      (boxes-accepted (id ∷ seen) (idx + 1) bs xs a.1 d.1 unseen)
boxes-accepted seen idx (b ∷ bs) nil a d u = absurd a
boxes-accepted seen idx [] (cons x xs) a d u = absurd a
boxes-accepted seen idx (b ∷ bs) (cons null xs) a d u = absurd a
boxes-accepted seen idx (b ∷ bs) (cons (bool _) xs) a d u = absurd a
boxes-accepted seen idx (b ∷ bs) (cons (int _) xs) a d u = absurd a
boxes-accepted seen idx (b ∷ bs) (cons (float _) xs) a d u = absurd a
boxes-accepted seen idx (b ∷ bs) (cons (str _) xs) a d u = absurd a
boxes-accepted seen idx (b ∷ bs) (cons (arr _) xs) a d u = absurd a

-- A value is accepted exactly where it is an array of the objects of fax boxes with different uuids: each
-- object has the three keys and no other, all three values are texts, and the uuid and the number are
-- not blank.
pub validate_fax_boxes_iff :
    (v : Json)
    → (validate_fax_boxes v ≡ none)
      ↔ ((xs : Items) × (v ≡ arr xs) × ((bs : List FaxBox) × AreBoxes bs xs × Distinct (uuids bs)))
unfolding validate_fax_boxes
validate_fax_boxes_iff (arr xs) = (
  λ h. let (bs, a, d, u) = accepted-boxes [] 0 xs h in (xs, refl, (bs, a, d)),
  λ a.
      let (ys, e, (bs, b, d)) = a in
      subst (λ (v : Json). validate_fax_boxes v ≡ none) (sym e)
        (boxes-accepted [] 0 bs ys b d (λ u i. refl)),
)
validate_fax_boxes_iff null = (λ h. cc, λ a. let e = a.1 in cc)
validate_fax_boxes_iff (bool b) = (λ h. cc, λ a. let e = a.1 in cc)
validate_fax_boxes_iff (int n) = (λ h. cc, λ a. let e = a.1 in cc)
validate_fax_boxes_iff (float s) = (λ h. cc, λ a. let e = a.1 in cc)
validate_fax_boxes_iff (str s) = (λ h. cc, λ a. let e = a.1 in cc)
validate_fax_boxes_iff (obj fs) = (λ h. cc, λ a. let e = a.1 in cc)
