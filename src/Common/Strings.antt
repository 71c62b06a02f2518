-- ===== src/Common/Strings.antt =====
-- Python's `str` as its list of code points. Case and white space are those of ASCII.
use Prim.Native.Nat.{ℕ, ◌+◌}
use Prim.Native.Char.{code}
use Prim.Native.String.{String}
use mathlib.Core.Path.{◌≡◌, refl}
use mathlib.Core.Bool.{Bool, true, false, ◌&&◌, ◌||◌}
use mathlib.Core.List.{List, [], ◌∷◌, ◌++◌, map, reverse}
use unified_communication_ba.Common.Tests.{leb, ltb, nat_beq, if◌then◌else◌}
use unified_communication_ba.Common.Lists.{select}

abbrev pub Text : Type 0
Text = List ℕ

abbrev pub codes : String → Text
codes String.[] = []
codes (String.◌∷◌ c s) = code c ∷ codes s

-- the truth value of a `str`
abbrev pub nonempty : Text → Bool
nonempty [] = false
nonempty (c ∷ s) = true

unfoldable pub to_lower : ℕ → ℕ
to_lower c = if leb b'A' c && leb c b'Z' then c + 32 else c

-- `s.lower()`
unfoldable pub lower : Text → Text
unfolding to_lower
lower = map to_lower

unfoldable pub is_space : ℕ → Bool
is_space c = nat_beq c b' ' || (leb 9 c && leb c 13) || (leb 28 c && leb c 31)

unfoldable pub lstrip : Text → Text
unfolding is_space
lstrip [] = []
lstrip (c ∷ s) = if is_space c then lstrip s else c ∷ s

-- `s.strip()`
unfoldable pub strip : Text → Text
unfolding lstrip
strip s = reverse (lstrip (reverse (lstrip s)))

unfoldable pub is_digit : ℕ → Bool
is_digit c = leb b'0' c && leb c b'9'

-- `s <= t`, by code points
unfoldable pub text_leb : Text → Text → Bool
text_leb [] t = true
text_leb (c ∷ s) [] = false
text_leb (c ∷ s) (d ∷ t) = ltb c d || (nat_beq c d && text_leb s t)

-- The pieces of `(acc + s).split(",")`, where `acc` is the piece begun, reversed.
unfoldable pub split_from : Text → Text → List Text
split_from acc [] = reverse acc ∷ []
split_from acc (c ∷ s) =
    let cut = reverse acc ∷ split_from [] s in
    let on = split_from (c ∷ acc) s in if nat_beq c b',' then cut else on

-- `s.split(",")`
unfoldable pub split : Text → List Text
unfolding split_from
split s = split_from [] s

-- `[e.strip() for e in s.split(",") if e.strip()]`
unfoldable pub split_list : Text → List Text
unfolding split strip select
split_list s = select nonempty (map strip (split s))

-- `",".join(parts)`
unfoldable pub join : List Text → Text
join [] = []
join (p ∷ []) = p
join (p ∷ q ∷ ps) = p ++ (b',' ∷ join (q ∷ ps))

split_list-example : split_list (codes " 101 ,, 102") ≡ codes "101" ∷ codes "102" ∷ []
unfolding split_list
split_list-example = refl
