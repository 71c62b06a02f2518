-- ===== src/Cdr/Params.antt =====
-- Query parameters: a key with one value, or with several.
use unified_communication_ba.Common.{
  Bool, true, false, Option, none, some, List, [], ◌∷◌, Text, nonempty, map, list_eq, nat_eq, Dict,
}

pub data ParamValue : Type 0 where
  one : Text → ParamValue
  many : List Text → ParamValue

abbrev pub Params : Type 0
Params = Dict Text ParamValue

-- `v[0] if isinstance(v, list) and len(v) == 1 else v`
unfoldable pub single_value : List Text → ParamValue
single_value [] = many []
single_value (v ∷ []) = one v
single_value (v ∷ w ∷ vs) = many (v ∷ w ∷ vs)

-- The parameters of `request.query_params`, where every value is a list.
unfoldable pub query_params : Dict Text (List Text) → Params
unfolding single_value
query_params q = map (λ (e : Text × List Text). (e.0, single_value e.1)) q

unfoldable pub truthy_value : ParamValue → Bool
truthy_value (one s) = nonempty s
truthy_value (many []) = false
truthy_value (many (v ∷ vs)) = true

-- `params.get(k)` where it is truthy
unfoldable pub given : Option ParamValue → Option ParamValue
unfolding truthy_value
given none = none
given (some v) = elim (truthy_value v) [ true ↦ some v | false ↦ none ]
