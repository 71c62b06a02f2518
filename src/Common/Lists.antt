-- ===== src/Common/Lists.antt =====
-- Lists as query results and as Python sets: filtering, the first match, membership, duplicates.
use Prim.Native.Nat.{ℕ, suc}
use mathlib.Core.Path.{◌≡◌, refl, sym, ap, ◌∙◌}
use mathlib.Core.Logic.{◌⊎◌, ◌↔◌, inl, inr}
use mathlib.Core.Bool.{Bool, true, false, ◌||◌}
use mathlib.Core.Option.{Option, none, some}
use mathlib.Core.List.{List, [], ◌∷◌, ◌++◌, map}
use native.Mathlib.Omega.{arith}
use unified_communication_ba.Common.Tests.{if◌then◌else◌, Bool-cases}
use unified_communication_ba.Common.Equality.{Equal, ◌==◌, nat_eq}

module _ {ℓ} {A : Type ℓ} where
  abbrev pub length : List A → ℕ
  length [] = 0
  length (x ∷ xs) = suc (length xs)

  -- `[x for x in xs if p(x)]`, and a queryset's `filter`
  unfoldable pub select : (A → Bool) → List A → List A
  select p [] = []
  select p (x ∷ xs) = let rest = select p xs in if p x then x ∷ rest else rest

  -- a queryset's `filter(...).first()`
  unfoldable pub first : (A → Bool) → List A → Option A
  first p [] = none
  first p (x ∷ xs) = if p x then some x else first p xs

  -- `any(p(x) for x in xs)`, and a queryset's `filter(...).exists()`
  unfoldable pub any : (A → Bool) → List A → Bool
  any p [] = false
  any p (x ∷ xs) = p x || any p xs

  -- a queryset's `filter(...).update(...)`
  unfoldable pub update_where : (A → Bool) → (A → A) → List A → List A
  update_where p f [] = []
  update_where p f (x ∷ xs) = (if p x then f x else x) ∷ update_where p f xs

-- `a` is an entry of the list.
abbrev pub In : {A : Type 0} → A → List A → Type 0
In a [] = ⊥
In a (x ∷ xs) = (a ≡ x) ⊎ In a xs

abbrev pub All {ℓ} : {A : Type ℓ} → (A → Type 0) → List A → Type 0
All P [] = Unit
All P (x ∷ xs) = P x × All P xs

module _ {A : Type 0} where
  pub In-append : (a : A) (xs ys : List A) → In a (xs ++ ys) ↔ (In a xs ⊎ In a ys)
  In-append a [] ys = ground arith
  In-append a (x ∷ xs) ys = ground (arith, In-append a xs ys)

  pub In-select :
      (p : A → Bool) (a : A) (xs : List A) → In a (select p xs) ↔ (In a xs × (p a ≡ true))
  unfolding select
  In-select p a [] = ground arith
  In-select p a (x ∷ xs) = ground (arith, In-select p a xs)

  pub first-In : (p : A → Bool) (a : A) (xs : List A) → first p xs ≡ some a → In a xs × (p a ≡ true)
  unfolding first
  first-In p a [] h = cc
  first-In p a (x ∷ xs) h = ground (arith, first-In p a xs)

  pub first-none : (p : A → Bool) (a : A) (xs : List A) → first p xs ≡ none → In a xs → p a ≡ false
  unfolding first
  first-none p a [] h i = absurd i
  first-none p a (x ∷ xs) h i = ground (arith, first-none p a xs)

  pub any-In : (p : A → Bool) (a : A) (xs : List A) → In a xs → p a ≡ true → any p xs ≡ true
  unfolding any
  any-In p a [] i h = absurd i
  any-In p a (x ∷ xs) i h = ground (arith, any-In p a xs)

  pub In-any : (p : A → Bool) (xs : List A) → any p xs ≡ true → (a : A) × In a xs × (p a ≡ true)
  unfolding any
  In-any p [] h = absurd (ground arith)
  In-any p (x ∷ xs) h = elim (Bool-cases (p x)) [
    | inl e ↦ (x, inl refl, e)
    | inr e ↦ let (a, i, q) = In-any p xs (ground arith) in (a, inr i, q)
  ]

  pub All-In : (P : A → Type 0) (a : A) (xs : List A) → All P xs → In a xs → P a
  All-In P a [] h i = absurd i
  All-In P a (x ∷ xs) h (inl e) = rw e h.0
  All-In P a (x ∷ xs) h (inr i) = All-In P a xs h.1 i

  pub In-update_where :
      (p : A → Bool) (f : A → A) (x : A) (xs : List A)
      → In x (update_where p f xs)
      → ((y : A) × In y xs × (p y ≡ true) × (x ≡ f y)) ⊎ (In x xs × (p x ≡ false))
  unfolding update_where
  In-update_where p f x [] i = absurd i
  In-update_where p f x (y ∷ ys) (inl e) = elim (Bool-cases (p y)) [
    | inl h ↦ inl (y, inl refl, h, e ∙ rw h refl)
    | inr h ↦ let q : x ≡ y = e ∙ rw h refl in inr (inl q, ap p q ∙ h)
  ]
  In-update_where p f x (y ∷ ys) (inr i) = elim (In-update_where p f x ys i) [
    | inl (z, j, h, e) ↦ inl (z, inr j, h, e)
    | inr (j, h) ↦ inr (inr j, h)
  ]

module _ {A : Type 0} ⦃e : Equal A⦄ where
  -- `a in xs`
  unfoldable pub contains : List A → A → Bool
  contains [] a = false
  contains (x ∷ xs) a = a == x || contains xs a

  pub contains_iff : (xs : List A) (a : A) → (contains xs a ≡ true) ↔ In a xs
  unfolding contains
  contains_iff [] a = ground arith
  contains_iff (x ∷ xs) a = ground (arith, e.same_iff a x, contains_iff xs a)

  -- The keys of `dict.fromkeys(xs)`: the first of each group of equal entries, in order, that are
  -- not in `seen`.
  unfoldable pub dedupe_from : List A → List A → List A
  unfolding contains
  dedupe_from seen [] = []
  dedupe_from seen (x ∷ xs) =
      let kept = x ∷ dedupe_from (x ∷ seen) xs in
      let rest = dedupe_from seen xs in if contains seen x then rest else kept

  unfoldable pub dedupe : List A → List A
  unfolding dedupe_from
  dedupe xs = dedupe_from [] xs

  pub In-dedupe_from :
      (seen : List A) (a : A) (xs : List A)
      → In a (dedupe_from seen xs) ↔ (In a xs × (contains seen a ≡ false))
  unfolding dedupe_from
  In-dedupe_from seen a [] = ground arith
  In-dedupe_from seen a (x ∷ xs) =
      ground (arith, In-dedupe_from seen a xs, In-dedupe_from (x ∷ seen) a xs, e.same_iff a x)

  pub In-dedupe : (a : A) (xs : List A) → In a (dedupe xs) ↔ In a xs
  unfolding dedupe contains
  In-dedupe a xs = ground (arith, In-dedupe_from [] a xs)

  -- No entry twice.
  abbrev pub Distinct : List A → Type 0
  Distinct [] = Unit
  Distinct (x ∷ xs) = (contains xs x ≡ false) × Distinct xs

  pub dedupe_from-Distinct : (seen xs : List A) → Distinct (dedupe_from seen xs)
  unfolding dedupe_from
  dedupe_from-Distinct seen [] = tt
  dedupe_from-Distinct seen (x ∷ xs) = ground (
    arith,
    dedupe_from-Distinct seen xs,
    dedupe_from-Distinct (x ∷ seen) xs,
    In-dedupe_from (x ∷ seen) x xs,
    contains_iff (dedupe_from (x ∷ seen) xs) x,
    e.same_iff x x,
  )

  pub dedupe-Distinct : (xs : List A) → Distinct (dedupe xs)
  unfolding dedupe
  dedupe-Distinct xs = dedupe_from-Distinct [] xs

module _ {A B : Type 0} where
  pub In-map : (f : A → B) (b : B) (xs : List A) → In b (map f xs) → (a : A) × In a xs × (b ≡ f a)
  In-map f b [] i = absurd i
  In-map f b (x ∷ xs) (inl h) = (x, inl refl, h)
  In-map f b (x ∷ xs) (inr i) = let (a, j, h) = In-map f b xs i in (a, inr j, h)

  pub map-In : (f : A → B) (a : A) (xs : List A) → In a xs → In (f a) (map f xs)
  map-In f a [] i = absurd i
  map-In f a (x ∷ xs) (inl h) = inl (rw h)
  map-In f a (x ∷ xs) (inr i) = inr (map-In f a xs i)

fresh_key :
    {A : Type 0} (key : A → ℕ) (x b : A) (xs : List A)
    → contains (map key xs) (key x) ≡ false
    → In b xs
    → key x ≡ key b
    → ⊥
fresh_key key x b xs h j e =
    let i = rw (← e) at (map-In key b xs j) in
    let c = (contains_iff (map key xs) (key x)).1 i in cc (c, h)

-- Rows with distinct keys are told apart by the key.
pub Distinct-key :
    {A : Type 0} (key : A → ℕ) (xs : List A) (a b : A)
    → Distinct (map key xs)
    → In a xs
    → In b xs
    → key a ≡ key b
    → a ≡ b
Distinct-key key [] a b d i j e = absurd i
Distinct-key key (x ∷ xs) a b d (inl i) (inl j) e = i ∙ sym j
Distinct-key key (x ∷ xs) a b d (inl i) (inr j) e =
    absurd (fresh_key key x b xs d.0 j (ap key (sym i) ∙ e))
Distinct-key key (x ∷ xs) a b d (inr i) (inl j) e =
    absurd (fresh_key key x a xs d.0 i (ap key (sym j) ∙ sym e))
Distinct-key key (x ∷ xs) a b d (inr i) (inr j) e = Distinct-key key xs a b d.1 i j e
