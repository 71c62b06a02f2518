-- ===== src/Common/Dicts.antt =====
-- Python's `dict`, in insertion order.
use mathlib.Core.Path.{◌≡◌}
use mathlib.Core.Option.{Option, none, some}
use mathlib.Core.List.{List, [], ◌∷◌}
use native.Mathlib.Omega.{arith}
use unified_communication_ba.Common.Tests.{if◌then◌else◌}
use unified_communication_ba.Common.Equality.{Equal, ◌==◌}

abbrev pub Dict : Type 0 → Type 0 → Type 0
Dict K V = List (K × V)

module _ {K V : Type 0} ⦃e : Equal K⦄ where
  -- `d.get(k)`
  unfoldable pub get : K → Dict K V → Option V
  get k [] = none
  get k ((j, v) ∷ d) = if k == j then some v else get k d

  -- `d[k] = v`
  unfoldable pub put : K → V → Dict K V → Dict K V
  put k v [] = (k, v) ∷ []
  put k v ((j, w) ∷ d) = if k == j then (j, v) ∷ d else (j, w) ∷ put k v d

  pub get-put :
      (k j : K) (v : V) (d : Dict K V) → get j (put k v d) ≡ (if k == j then some v else get j d)
  unfolding get put
  get-put k j v [] = ground (arith, e.same_iff k j, e.same_iff j k)
  get-put k j v ((i, w) ∷ d) = ground (
    arith,
    e.same_iff k j,
    e.same_iff j k,
    e.same_iff k i,
    e.same_iff j i,
    e.same_iff i j,
    get-put k j v d,
  )
