-- ===== src/Webhooks/Sanitize/Paths.antt =====
-- `sanitize_payload` seen from a path into the payload: what is reached, what is redacted.
use unified_communication_ba.Common.{
  ℕ, zero, suc, true, false, ◌≡◌, refl, sym, Option, none, some, List, [], ◌∷◌, Text, list_eq,
  nat_eq, ◌==◌, arith, if◌then◌else◌, ◌++◌, list_beq_iff,
}
use mathlib.Core.Path.{subst}
use unified_communication_ba.Json.{Json, arr, obj, Items, nil, cons, Fields, end, field}
use unified_communication_ba.Webhooks.Sanitize.{
  redacted, is_sensitive, sanitize_payload, sanitize_items, sanitize_fields,
}

pub data Step : Type 0 where
  key : Text → Step
  index : ℕ → Step

unfoldable pub item_at : ℕ → Items → Option Json
item_at i nil = none
item_at zero (cons x xs) = some x
item_at (suc i) (cons x xs) = item_at i xs

unfoldable pub value_at : Text → Fields → Option Json
value_at k end = none
value_at k (field j v fs) = if k == j then some v else value_at k fs

unfoldable pub step : Step → Json → Option Json
unfolding item_at value_at
step (key k) (obj fs) = value_at k fs
step (index i) (arr xs) = item_at i xs
step _ _ = none

abbrev and_then : Option Json → (Json → Option Json) → Option Json
and_then none f = none
and_then (some j) f = f j

-- The value that a path leads to, if there is one.
unfoldable pub follow : List Step → Json → Option Json
unfolding step
follow [] j = some j
follow (p ∷ ps) j = and_then (step p j) (λ v. follow ps v)

-- No key of the path is sensitive.
abbrev pub IsOpen : List Step → Type 0
IsOpen [] = Unit
IsOpen (key k ∷ ps) = (is_sensitive k ≡ false) × IsOpen ps
IsOpen (index i ∷ ps) = IsOpen ps

abbrev pub sanitized : Option Json → Option Json
sanitized none = none
sanitized (some j) = some (sanitize_payload j)

item_at-sanitize : (i : ℕ) (xs : Items) → item_at i (sanitize_items xs) ≡ sanitized (item_at i xs)
unfolding item_at sanitize_payload
item_at-sanitize i nil = refl
item_at-sanitize zero (cons x xs) = refl
item_at-sanitize (suc i) (cons x xs) = item_at-sanitize i xs

value_at-sanitize :
    (k : Text) (fs : Fields)
    → is_sensitive k ≡ false
    → value_at k (sanitize_fields fs) ≡ sanitized (value_at k fs)
unfolding value_at sanitize_payload
value_at-sanitize k end h = refl
value_at-sanitize k (field j v fs) h = ground (arith, list_beq_iff k j, value_at-sanitize k fs h)

abbrev pub redacted_if_present : Option Json → Option Json
redacted_if_present none = none
redacted_if_present (some j) = some redacted

value_at-redact :
    (k : Text) (fs : Fields)
    → is_sensitive k ≡ true
    → value_at k (sanitize_fields fs) ≡ redacted_if_present (value_at k fs)
unfolding value_at sanitize_payload
value_at-redact k end h = refl
value_at-redact k (field j v fs) h = ground (arith, list_beq_iff k j, value_at-redact k fs h)

step-sanitize :
    (p : Step) (j : Json) → IsOpen (p ∷ []) → step p (sanitize_payload j) ≡ sanitized (step p j)
unfolding step sanitize_payload
step-sanitize (key k) (obj fs) h = value_at-sanitize k fs h.0
step-sanitize (index i) (arr xs) h = item_at-sanitize i xs
step-sanitize (key k) _ h = refl
step-sanitize (index i) _ h = refl

step-redact :
    (k : Text) (j : Json)
    → is_sensitive k ≡ true
    → step (key k) (sanitize_payload j) ≡ redacted_if_present (step (key k) j)
unfolding step sanitize_payload
step-redact k (obj fs) h = value_at-redact k fs h
step-redact k _ h = refl

IsOpen-head : (p : Step) (ps : List Step) → IsOpen (p ∷ ps) → IsOpen (p ∷ []) × IsOpen ps
IsOpen-head (key k) ps h = ((h.0, tt), h.1)
IsOpen-head (index i) ps h = (tt, h)

and_then-sanitized :
    (o : Option Json) (f : Json → Option Json)
    → ((v : Json) → f (sanitize_payload v) ≡ sanitized (f v))
    → and_then (sanitized o) f ≡ sanitized (and_then o f)
and_then-sanitized none f h = refl
and_then-sanitized (some v) f h = h v

and_then-redacted :
    (o : Option Json) (f : Json → Option Json)
    → ((v : Json) → f (sanitize_payload v) ≡ redacted_if_present (f v))
    → and_then (sanitized o) f ≡ redacted_if_present (and_then o f)
and_then-redacted none f h = refl
and_then-redacted (some v) f h = h v

and_then-some :
    (o : Option Json)
    → and_then (redacted_if_present o) (λ v. some v)
      ≡ redacted_if_present (and_then o (λ v. some v))
and_then-some none = refl
and_then-some (some v) = refl

-- A path without a sensitive key leads into the sanitized payload exactly where it leads in the payload,
-- and to the sanitized value there.
pub follow-sanitize_payload :
    (ps : List Step) (j : Json)
    → IsOpen ps
    → follow ps (sanitize_payload j) ≡ sanitized (follow ps j)
unfolding follow
follow-sanitize_payload [] j h = refl
follow-sanitize_payload (p ∷ ps) j h =
    let (first, rest) = IsOpen-head p ps h in
    subst (λ o. and_then o (λ v. follow ps v) ≡ sanitized (and_then (step p j) (λ v. follow ps v)))
      (sym (step-sanitize p j first))
      (and_then-sanitized (step p j) (λ v. follow ps v) (λ v. follow-sanitize_payload ps v rest))

-- A sensitive key at the end of a path without any other leads to the mark in the sanitized payload, if
-- the payload has a value there, and to nothing if it has none.
pub follow-redacted :
    (ps : List Step) (k : Text) (j : Json)
    → IsOpen ps
    → is_sensitive k ≡ true
    → follow (ps ++ key k ∷ []) (sanitize_payload j)
      ≡ redacted_if_present (follow (ps ++ key k ∷ []) j)
unfolding follow
follow-redacted [] k j h s =
    subst
      (λ o.
        and_then o (λ v. some v) ≡ redacted_if_present (and_then (step (key k) j) (λ v. some v)))
      (sym (step-redact k j s)) (and_then-some (step (key k) j))
follow-redacted (p ∷ ps) k j h s =
    let (first, rest) = IsOpen-head p ps h in
    let f = λ (v : Json). follow (ps ++ key k ∷ []) v in
    subst (λ o. and_then o f ≡ redacted_if_present (and_then (step p j) f))
      (sym (step-sanitize p j first))
      (and_then-redacted (step p j) f (λ v. follow-redacted ps k v rest s))
