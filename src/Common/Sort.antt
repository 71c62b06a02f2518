-- ===== src/Common/Sort.antt =====
-- A queryset's `order_by` as a stable insertion sort, and its slices.
use Prim.Native.Nat.{ℕ, zero, suc, min}
use mathlib.Core.Path.{◌≡◌}
use mathlib.Core.Logic.{◌⊎◌, ◌↔◌}
use mathlib.Core.Bool.{Bool}
use mathlib.Core.List.{List, [], ◌∷◌}
use native.Mathlib.Omega.{arith}
use unified_communication_ba.Common.Tests.{leb, if◌then◌else◌}
use unified_communication_ba.Common.Lists.{length, In}

module _ {A : Type 0} where
  -- Before the first row that must not stand before it.
  unfoldable pub insert_by : (A → A → Bool) → A → List A → List A
  insert_by before a [] = a ∷ []
  insert_by before a (x ∷ xs) =
      let rest = insert_by before a xs in if before a x then a ∷ x ∷ xs else x ∷ rest

  -- Rows that may stand in both orders keep the order of the table.
  unfoldable pub sort_by : (A → A → Bool) → List A → List A
  unfolding insert_by
  sort_by before [] = []
  sort_by before (x ∷ xs) = insert_by before x (sort_by before xs)

  -- `order_by(key)`
  unfoldable pub order_by : (A → ℕ) → List A → List A
  unfolding sort_by
  order_by key = sort_by (λ a x. leb (key a) (key x))

  -- `xs[:n]`
  abbrev pub take : ℕ → List A → List A
  take zero xs = []
  take (suc n) [] = []
  take (suc n) (x ∷ xs) = x ∷ take n xs

  -- `xs[n:]`
  abbrev pub drop : ℕ → List A → List A
  drop zero xs = xs
  drop (suc n) [] = []
  drop (suc n) (x ∷ xs) = drop n xs

  In-insert_by :
      (before : A → A → Bool) (b a : A) (xs : List A)
      → In b (insert_by before a xs) ↔ ((b ≡ a) ⊎ In b xs)
  unfolding insert_by
  In-insert_by before b a [] = ground arith
  In-insert_by before b a (x ∷ xs) = ground (arith, In-insert_by before b a xs)

  pub In-sort_by :
      (before : A → A → Bool) (b : A) (xs : List A) → In b (sort_by before xs) ↔ In b xs
  unfolding sort_by
  In-sort_by before b [] = ground arith
  In-sort_by before b (x ∷ xs) =
      ground (arith, In-insert_by before b x (sort_by before xs), In-sort_by before b xs)

  pub In-order_by : (key : A → ℕ) (b : A) (xs : List A) → In b (order_by key xs) ↔ In b xs
  unfolding order_by
  In-order_by key b xs = In-sort_by (λ a x. leb (key a) (key x)) b xs

  pub In-take : (n : ℕ) (a : A) (xs : List A) → In a (take n xs) → In a xs
  In-take zero a xs h = absurd h
  In-take (suc n) a [] h = h
  In-take (suc n) a (x ∷ xs) h = ground (arith, In-take n a xs)

  pub length-take : (n : ℕ) (xs : List A) → length (take n xs) ≡ min n (length xs)
  length-take zero xs = omega arith
  length-take (suc n) [] = omega arith
  length-take (suc n) (x ∷ xs) = omega (arith, length-take n xs)
