-- ===== src/Users/Validators/Voicemail.antt =====
-- Which values `validate_voicemail_boxes` accepts.
use mathlib.Core.Path.{subst}
use unified_communication_ba.Common.{
  ℕ, ◌≡◌, ◌↔◌, ◌+◌, refl, sym, ap, inl, inr, false, none, List, [], ◌∷◌, nat_eq, nat_beq_iff,
  contains, contains_iff, In, Distinct, arith, Bool-cases,
}
use unified_communication_ba.Json.{
  pos, negsuc, Json, null, bool, int, float, str, arr, obj, Items, nil, cons,
}
use unified_communication_ba.Users.Validators.{check_voicemail_ids, validate_voicemail_boxes}

-- The JSON array of the numbers.
abbrev pub int_items : List ℕ → Items
int_items [] = nil
int_items (n ∷ ns) = cons (int (pos n)) (int_items ns)

-- None of the numbers has been seen.
abbrev Unseen : List ℕ → List ℕ → Type 0
Unseen seen ns = (n : ℕ) → In n ns → contains seen n ≡ false

Unseen-cons : (n : ℕ) (seen ns : List ℕ) → Unseen (n ∷ seen) ns → contains ns n ≡ false
unfolding contains
Unseen-cons n seen ns h = elim (Bool-cases (contains ns n)) [
  | inl e ↦ absurd (ground (arith, h n ((contains_iff ns n).0 e), nat_beq_iff n n))
  | inr e ↦ e
]

accepted-ids :
    (seen : List ℕ) (idx : ℕ) (xs : Items)
    → check_voicemail_ids seen idx xs ≡ none
    → (ns : List ℕ) × (xs ≡ int_items ns) × Distinct ns × Unseen seen ns
unfolding check_voicemail_ids contains
accepted-ids seen idx nil h = ([], refl, tt, λ n i. absurd i)
accepted-ids seen idx (cons (int (pos n)) xs) h =
    let (ns, e, d, u) = accepted-ids (n ∷ seen) (idx + 1) xs (ground arith) in
    (
      n ∷ ns,
      ap (cons (int (pos n))) e,
      (Unseen-cons n seen ns u, d),
      λ m i. elim i [ inl f ↦ rw f (ground arith) | inr j ↦ ground (arith, u m j) ],
    )
accepted-ids seen idx (cons (int (negsuc n)) xs) h = cc
accepted-ids seen idx (cons null xs) h = cc
accepted-ids seen idx (cons (bool b) xs) h = cc
accepted-ids seen idx (cons (float s) xs) h = cc
accepted-ids seen idx (cons (str s) xs) h = cc
accepted-ids seen idx (cons (arr ys) xs) h = cc
accepted-ids seen idx (cons (obj fs) xs) h = cc

ids-accepted :
    (seen : List ℕ) (idx : ℕ) (ns : List ℕ)
    → Distinct ns
    → Unseen seen ns
    → check_voicemail_ids seen idx (int_items ns) ≡ none
unfolding check_voicemail_ids contains
ids-accepted seen idx [] d u = refl
ids-accepted seen idx (n ∷ ns) d u =
    let unseen : Unseen (n ∷ seen) ns =
      λ m i. ground (arith, u m (inr i), nat_beq_iff m n, contains_iff ns n, ap (λ k. In k ns)) in
    ground (arith, u n (inl refl), ids-accepted (n ∷ seen) (idx + 1) ns d.1 unseen)

-- A value is accepted exactly where it is an array of different numbers that are not negative.
pub validate_voicemail_boxes_iff :
    (v : Json)
    → (validate_voicemail_boxes v ≡ none) ↔ ((ns : List ℕ) × (v ≡ arr (int_items ns)) × Distinct ns)
unfolding validate_voicemail_boxes
validate_voicemail_boxes_iff (arr xs) = (
  λ h. let (ns, e, d, u) = accepted-ids [] 0 xs h in (ns, ap arr e, d),
  λ a.
      subst (λ (v : Json). validate_voicemail_boxes v ≡ none) (sym a.1)
        (ids-accepted [] 0 a.0 a.2 (λ n i. refl)),
)
validate_voicemail_boxes_iff null = (λ h. cc, λ a. let e = a.1 in cc)
validate_voicemail_boxes_iff (bool b) = (λ h. cc, λ a. let e = a.1 in cc)
validate_voicemail_boxes_iff (int n) = (λ h. cc, λ a. let e = a.1 in cc)
validate_voicemail_boxes_iff (float s) = (λ h. cc, λ a. let e = a.1 in cc)
validate_voicemail_boxes_iff (str s) = (λ h. cc, λ a. let e = a.1 in cc)
validate_voicemail_boxes_iff (obj fs) = (λ h. cc, λ a. let e = a.1 in cc)
