-- ===== src/Json.antt =====
-- JSON values as Python reads them: `None`, `bool`, `int`, `float`, `str`, `list` and `dict`. An `int` is
-- an integer; a `float` is kept as its printed text, which the modelled code never computes with.
use unified_communication_ba.Common.{
  ℕ, Bool, true, false, not, Option, none, some, Text, codes, nonempty, nat_eq, list_eq, ◌==◌, ◌||◌,
  if◌then◌else◌, nat_beq, zero, suc, ◌+◌, ltb, [], ◌∷◌, ◌++◌,
}
use Prim.Native.Nat.{◌/◌, ◌%◌}

pub data ℤ : Type 0 where
  pos : ℕ → ℤ
  negsuc : ℕ → ℤ

mutual
  pub data Json : Type 0 where
    null : Json
    bool : Bool → Json
    int : ℤ → Json
    float : Text → Json
    str : Text → Json
    arr : Items → Json
    obj : Fields → Json

  pub data Items : Type 0 where
    nil : Items
    cons : Json → Items → Items

  pub data Fields : Type 0 where
    end : Fields
    field : Text → Json → Fields → Fields

abbrev pub items_nonempty : Items → Bool
items_nonempty nil = false
items_nonempty (cons x xs) = true

abbrev pub fields_nonempty : Fields → Bool
fields_nonempty end = false
fields_nonempty (field k v fs) = true

-- Python's `bool(x)`
unfoldable pub truthy : Json → Bool
truthy null = false
truthy (bool b) = b
truthy (int (pos n)) = not (nat_beq n 0)
truthy (int (negsuc n)) = true
truthy (float s) = not (s == codes "0.0" || s == codes "-0.0")
truthy (str s) = nonempty s
truthy (arr xs) = items_nonempty xs
truthy (obj fs) = fields_nonempty fs

-- `fs.get(k)`: `none` where the key is missing
unfoldable pub get_field : Text → Fields → Option Json
get_field k end = none
get_field k (field j v fs) = if k == j then some v else get_field k fs

abbrev pub or_null : Option Json → Json
or_null none = null
or_null (some v) = v

-- `fs.get(k)` with `None` for a missing key
unfoldable pub get_or_null : Text → Fields → Json
unfolding get_field
get_or_null k fs = or_null (get_field k fs)

-- `a or b`
unfoldable pub or_else : Json → Json → Json
unfolding truthy
or_else a b = if truthy a then a else b

-- The decimal digits of `n`, before `acc`; each step divides by ten, so `n` steps are enough.
unfoldable pub decimal_from : ℕ → ℕ → Text → Text
decimal_from zero n acc = (b'0' + n % 10) ∷ acc
decimal_from (suc fuel) n acc =
    let rest = decimal_from fuel (n / 10) ((b'0' + n % 10) ∷ acc) in
    if ltb n 10 then (b'0' + n % 10) ∷ acc else rest

unfoldable pub decimal : ℕ → Text
unfolding decimal_from
decimal n = decimal_from n n []

-- Python's `str(x)`; that of a list or a dict is an argument.
unfoldable pub str_of : (Json → Text) → Json → Text
unfolding decimal
str_of repr null = codes "None"
str_of repr (bool true) = codes "True"
str_of repr (bool false) = codes "False"
str_of repr (int (pos n)) = decimal n
str_of repr (int (negsuc n)) = codes "-" ++ decimal (n + 1)
str_of repr (float s) = s
str_of repr (str s) = s
str_of repr (arr xs) = repr (arr xs)
str_of repr (obj fs) = repr (obj fs)
