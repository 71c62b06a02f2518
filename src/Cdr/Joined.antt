-- ===== src/Cdr/Joined.antt =====
-- A list of extensions in a query parameter: `",".join` and `.split(",")`.
use mathlib.Core.List.{reverse, reverse_aux, reverse-reverse, append-nil}
use unified_communication_ba.Common.{
  ◌≡◌, refl, sym, ap, ◌∙◌, false, List, [], ◌∷◌, ◌++◌, Text, contains, nat_eq, split_from, split,
  join, All, arith,
}

-- No element has a comma.
abbrev pub NoComma : Text → Type 0
NoComma s = contains s b',' ≡ false

split_from-piece :
    (acc p s : Text) → NoComma p → split_from acc (p ++ s) ≡ split_from (reverse_aux p acc) s
unfolding split_from contains
split_from-piece acc [] s h = refl
split_from-piece acc (c ∷ p) s h = ground (arith, split_from-piece (c ∷ acc) p s)

split_from-cut : (acc s : Text) → split_from acc (b',' ∷ s) ≡ reverse acc ∷ split_from [] s
unfolding split_from
split_from-cut acc s = refl

split_from-last : (p : Text) → NoComma p → split_from [] p ≡ p ∷ []
unfolding split_from
split_from-last p h =
    ap (split_from []) (sym (append-nil p))
    ∙ split_from-piece [] p [] h
    ∙ ap (λ (q : Text). q ∷ []) (reverse-reverse p)

-- Splitting a joined list gives the list back, where it is not empty and no element has a comma.
pub split-join : (p : Text) (ps : List Text) → All NoComma (p ∷ ps) → split (join (p ∷ ps)) ≡ p ∷ ps
unfolding split join
split-join p [] h = split_from-last p h.0
split-join p (q ∷ ps) h =
    split_from-piece [] p (b',' ∷ join (q ∷ ps)) h.0
    ∙ split_from-cut (reverse p) (join (q ∷ ps))
    ∙ ap (λ (r : Text). r ∷ split (join (q ∷ ps))) (reverse-reverse p)
    ∙ ap (λ (r : List Text). p ∷ r) (split-join q ps h.1)

-- A list without elements comes back as one empty text.
pub split-join_nil : split (join []) ≡ [] ∷ []
unfolding split join
split-join_nil = refl
