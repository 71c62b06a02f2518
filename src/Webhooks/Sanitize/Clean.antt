-- ===== src/Webhooks/Sanitize/Clean.antt =====
-- `sanitize_payload` (apps/webhooks/views.py): what is left, and a second application.
use unified_communication_ba.Common.{Bool, true, ◌≡◌, refl, ap, if◌then◌else◌, Bool-cases, inl, inr}
use unified_communication_ba.Json.{
  Json, null, bool, int, float, str, arr, obj, Items, nil, cons, Fields, end, field,
}
use unified_communication_ba.Webhooks.Sanitize.{
  redacted, is_sensitive, sanitize_payload, sanitize_items, sanitize_fields,
}

-- At every depth, a sensitive key holds the mark and nothing else.
mutual
  pub IsClean : Json → Type 0
  IsClean (obj fs) = AreClean fs
  IsClean (arr xs) = AllClean xs
  IsClean null = Unit
  IsClean (bool b) = Unit
  IsClean (int n) = Unit
  IsClean (float s) = Unit
  IsClean (str s) = Unit

  pub AllClean : Items → Type 0
  AllClean nil = Unit
  AllClean (cons x xs) = IsClean x × AllClean xs

  pub AreClean : Fields → Type 0
  AreClean end = Unit
  AreClean (field k v fs) = (is_sensitive k ≡ true → v ≡ redacted) × IsClean v × AreClean fs

redact_if : Bool → Json → Json
redact_if b v = if b then redacted else v

mutual
  unfolding sanitize_payload IsClean

  clean : (j : Json) → IsClean (sanitize_payload j)
  clean (obj fs) = clean_fields fs
  clean (arr xs) = clean_items xs
  clean null = tt
  clean (bool b) = tt
  clean (int n) = tt
  clean (float s) = tt
  clean (str s) = tt

  clean_items : (xs : Items) → AllClean (sanitize_items xs)
  clean_items nil = tt
  clean_items (cons x xs) = (clean x, clean_items xs)

  clean_fields : (fs : Fields) → AreClean (sanitize_fields fs)
  clean_fields end = tt
  clean_fields (field k v fs) = elim (Bool-cases (is_sensitive k)) [
    | inl e ↦ rw e ((λ _. refl), tt, clean_fields fs)
    | inr e ↦ rw e ((λ h. cc h), clean v, clean_fields fs)
  ]

-- A sanitized payload holds no value but the mark under a sensitive key, at any depth.
pub sanitize_payload-IsClean : (j : Json) → IsClean (sanitize_payload j)
sanitize_payload-IsClean = clean

mutual
  unfolding sanitize_payload

  again : (j : Json) → sanitize_payload (sanitize_payload j) ≡ sanitize_payload j
  again (obj fs) = ap obj (again_fields fs)
  again (arr xs) = ap arr (again_items xs)
  again null = refl
  again (bool b) = refl
  again (int n) = refl
  again (float s) = refl
  again (str s) = refl

  again_items : (xs : Items) → sanitize_items (sanitize_items xs) ≡ sanitize_items xs
  again_items nil = refl
  again_items (cons x xs) = cc (again x, again_items xs)

  again_fields : (fs : Fields) → sanitize_fields (sanitize_fields fs) ≡ sanitize_fields fs
  again_fields end = refl
  again_fields (field k v fs) = elim (Bool-cases (is_sensitive k)) [
    | inl e ↦ rw e (cc (again_fields fs))
    | inr e ↦ rw e (cc (again v, again_fields fs))
  ]

-- Sanitizing a payload a second time changes nothing.
pub sanitize_payload_idem : (j : Json) → sanitize_payload (sanitize_payload j) ≡ sanitize_payload j
sanitize_payload_idem = again
