-- ===== src/Users/Validators/Box.antt =====
-- One element of the list that `validate_fax_boxes` checks (apps/users/validators.py).
use mathlib.Core.Path.{subst}
use unified_communication_ba.Common.{
  ◌==◌, ℕ, ◌≡◌, refl, sym, ap, ◌∙◌, inl, inr, true, false, Option, none, some, List, Text, codes,
  nonempty, strip, nat_eq, list_eq, list_beq_iff, contains, contains_iff, In, arith, Bool-cases,
}
use unified_communication_ba.Json.{
  Json, null, bool, int, float, str, arr, obj, Fields, end, field, get_field, get_or_null, or_null,
}
use unified_communication_ba.Models.{FaxBox}
use unified_communication_ba.Users.Validators.{
  has_key, required_keys, has_required_keys, no_extra_keys, is_text, text, is_filled, passed,
  check_values, check_fields,
}

has_key-field :
    (k j : Text) (v : Json) (fs : Fields) → has_key k fs ≡ true → has_key k (field j v fs) ≡ true
unfolding get_field
has_key-field k j v fs h = elim (Bool-cases (k == j)) [ inl e ↦ rw e refl | inr e ↦ rw e h ]

no_extra_keys-In :
    (fs : Fields) → no_extra_keys fs ≡ true → (k : Text) → has_key k fs ≡ true → In k required_keys
unfolding no_extra_keys get_field
no_extra_keys-In end h k = λ i. cc
no_extra_keys-In (field j v fs) h k = elim (Bool-cases (k == j)) [
  | inl e ↦ λ i.
      subst (λ (t : Text). In t required_keys) (sym ((list_beq_iff k j).0 e))
        ((contains_iff required_keys j).0 (ground arith))
  | inr e ↦ rw e (λ i. no_extra_keys-In fs (ground arith) k i)
]

no_extra_keys_of-In :
    (fs : Fields)
    → ((k : Text) → has_key k fs ≡ true → In k required_keys)
    → no_extra_keys fs ≡ true
unfolding no_extra_keys get_field
no_extra_keys_of-In end h = refl
no_extra_keys_of-In (field j v fs) h = ground (
  arith,
  (contains_iff required_keys j).1 (h j (rw ((list_beq_iff j j).1 refl) refl)),
  no_extra_keys_of-In fs (λ k i. h k (has_key-field k j v fs i)),
)

-- The JSON object of a fax box: its three values, and no other key.
pub record IsBox (b : FaxBox) (fs : Fields) : Type 0 where
  pub uuid : get_field (codes "fax_uuid") fs ≡ some (str b.fax_uuid)
  pub name : get_field (codes "fax_caller_id_name") fs ≡ some (str b.fax_caller_id_name)
  pub number : get_field (codes "fax_caller_id_number") fs ≡ some (str b.fax_caller_id_number)
  pub uuid_filled : nonempty (strip b.fax_uuid) ≡ true
  pub number_filled : nonempty (strip b.fax_caller_id_number) ≡ true
  pub no_other : (k : Text) → has_key k fs ≡ true → In k required_keys

filled-text :
    (j : Json) → is_filled j ≡ true → (s : Text) × (j ≡ str s) × (nonempty (strip s) ≡ true)
unfolding is_filled
filled-text (str s) h = (s, refl, h)
filled-text null h = cc
filled-text (bool b) h = cc
filled-text (int n) h = cc
filled-text (float s) h = cc
filled-text (arr xs) h = cc
filled-text (obj fs) h = cc

text-str : (j : Json) → is_text j ≡ true → (s : Text) × (j ≡ str s)
text-str (str s) h = (s, refl)
text-str null h = cc
text-str (bool b) h = cc
text-str (int n) h = cc
text-str (float s) h = cc
text-str (arr xs) h = cc
text-str (obj fs) h = cc

values-passed :
    (seen : List Text) (idx : ℕ) (uuid name number : Json) (u : Text)
    → check_values seen idx uuid name number ≡ passed u
    → (is_filled uuid ≡ true)
      × (is_text name ≡ true)
      × (is_filled number ≡ true)
      × (contains seen u ≡ false)
      × (u ≡ text uuid)
unfolding check_values
values-passed seen idx uuid name number u h = ground arith

or_null-str : (o : Option Json) (s : Text) → or_null o ≡ str s → o ≡ some (str s)
or_null-str none s h = cc
or_null-str (some v) s h = ap some h

get_or_null-get_field :
    (k : Text) (fs : Fields) (s : Text) → get_or_null k fs ≡ str s → get_field k fs ≡ some (str s)
unfolding get_or_null
get_or_null-get_field k fs s h = or_null-str (get_field k fs) s h

pub fields-passed :
    (seen : List Text) (idx : ℕ) (fs : Fields) (u : Text)
    → check_fields seen idx fs ≡ passed u
    → (b : FaxBox) × IsBox b fs × (b.fax_uuid ≡ u) × (contains seen u ≡ false)
unfolding check_fields
fields-passed seen idx fs u h =
    let uuid = get_or_null (codes "fax_uuid") fs in
    let name = get_or_null (codes "fax_caller_id_name") fs in
    let number = get_or_null (codes "fax_caller_id_number") fs in
    let e : check_values seen idx uuid name number ≡ passed u = ground arith in
    let only : no_extra_keys fs ≡ true = ground arith in
    let (a, b, c, d, f) = values-passed seen idx uuid name number u e in
    let (s, g, i) = filled-text uuid a in
    let (n, j) = text-str name b in
    let (m, k, l) = filled-text number c in
    (
      record { fax_uuid = s; fax_caller_id_name = n; fax_caller_id_number = m },
      record {
        uuid = get_or_null-get_field (codes "fax_uuid") fs s g;
        name = get_or_null-get_field (codes "fax_caller_id_name") fs n j;
        number = get_or_null-get_field (codes "fax_caller_id_number") fs m k;
        uuid_filled = i;
        number_filled = l;
        no_other = no_extra_keys-In fs only;
      },
      sym (f ∙ ap text g),
      d,
    )

pub box-passed :
    (seen : List Text) (idx : ℕ) (b : FaxBox) (fs : Fields)
    → IsBox b fs
    → contains seen b.fax_uuid ≡ false
    → check_fields seen idx fs ≡ passed b.fax_uuid
unfolding check_fields has_required_keys check_values is_filled get_or_null
box-passed seen idx b fs h c = rw h.uuid (
    rw h.name (
      rw h.number
        (ground (arith, h.uuid_filled, h.number_filled, no_extra_keys_of-In fs h.no_other, c))))
