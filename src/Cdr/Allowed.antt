-- ===== src/Cdr/Allowed.antt =====
-- `_resolve_requested_extensions` (apps/common/cdr_views.py), for users, team leads and those without.

use unified_communication_ba.Common.{
  ◌≡◌, ◌↔◌, ◌⊎◌, refl, ap, ◌∙◌, inl, inr, true, false, Option, none, some, List, [], ◌∷◌, Text,
  nonempty, list_eq, nat_eq, split, join, In, All, arith, dedupe,
}
use unified_communication_ba.Models.{User, Extension, role_beq, user}
use unified_communication_ba.Scoping.{Tables, extension_of, resolve_tl_extensions}
use unified_communication_ba.Cdr.Params.{Params}
use unified_communication_ba.Cdr.Scope.{
  sorted_set, requested_extensions, combine, both, resolve_requested_extensions,
}
use unified_communication_ba.Cdr.Joined.{NoComma, split-join}
use unified_communication_ba.Cdr.Requested.{
  In-sorted_set, resolve-own, resolve-nobody, resolve-granted, Asked, In-combine, combine-some,
}

-- The result is a list: the extensions of `allowed` that the caller asked for.
abbrev pub IsScoped : Option (List Text) → List Text → Option (Option (List Text)) → Type 0
IsScoped asked allowed r =
    (xs : List Text) × (r ≡ some (some xs))
    × ((x : Text) → In x xs ↔ (In x allowed × Asked asked x))

both-IsScoped :
    (params : Params) (asked : Option (List Text)) (allowed : List Text)
    → requested_extensions params ≡ some asked
    → IsScoped asked allowed (both (requested_extensions params) (some (some allowed)))
both-IsScoped params asked allowed q =
    let (xs, c) = combine-some asked allowed in
    (xs, rw q (rw c refl), λ x. In-combine asked allowed x xs c)

All-of_In : (P : Text → Type 0) (xs : List Text) → ((x : Text) → In x xs → P x) → All P xs
All-of_In P [] h = tt
All-of_In P (x ∷ xs) h = (h x (inl refl), All-of_In P xs (λ y i. h y (inr i)))

split-join_of_In :
    (x : Text) (xs : List Text)
    → In x xs
    → ((y : Text) → In y xs → NoComma y)
    → split (join xs) ≡ xs
split-join_of_In x [] i h = absurd i
split-join_of_In x (p ∷ ps) i h = split-join p ps (All-of_In NoComma (p ∷ ps) h)

module _ (t : Tables) (u : User) (params : Params) (plain : u.is_superuser ≡ false) where
  -- For a caller with the role of a user and with an extension, the result is a list, and no other
  -- extension is in it: it has that extension exactly where the caller asked for it, or for nothing in
  -- particular.
  pub resolve_requested_extensions-own :
      (e : Extension) (asked : Option (List Text))
      → u.role ≡ user
      → extension_of t.extensions u.id ≡ some e
      → nonempty e.extension_number ≡ true
      → requested_extensions params ≡ some asked
      → IsScoped asked (e.extension_number ∷ []) (resolve_requested_extensions t u params)
  resolve_requested_extensions-own e asked role x n q =
      rw (resolve-own t u params plain e role x n)
        (both-IsScoped params asked (e.extension_number ∷ []) q)

  -- For a caller who is no plain user and whose grants resolve to at least one extension, none of them
  -- with a comma, the result is a list: exactly the granted extensions that the caller asked for, or all
  -- of them if it asked for nothing in particular.
  pub resolve_requested_extensions-granted :
      (p : Text) (ps : List Text) (asked : Option (List Text))
      → role_beq u.role user ≡ false
      → resolve_tl_extensions t u ≡ some (p ∷ ps)
      → ((x : Text) → In x (p ∷ ps) → NoComma x)
      → requested_extensions params ≡ some asked
      → IsScoped asked (p ∷ ps) (resolve_requested_extensions t u params)
  resolve_requested_extensions-granted p ps asked role x n q =
      let sorted = sorted_set (p ∷ ps) in
      let e : split (join sorted) ≡ sorted =
        split-join_of_In p sorted ((In-sorted_set p (p ∷ ps)).1 (inl refl))
          (λ y i. n y ((In-sorted_set y (p ∷ ps)).0 i)) in
      let (xs, r, m) = both-IsScoped params asked sorted q in
      (
        xs,
        resolve-granted t u params plain (p ∷ ps) role x
            ∙ ap (λ (a : List Text). both (requested_extensions params) (some (some a))) e
            ∙ r,
        λ y. ground (arith, m y, In-sorted_set y (p ∷ ps)),
      )

  -- For a caller who is no plain user and whose grants resolve to no extension at all, and who asks for
  -- nothing in particular, the list is one empty text: one call goes upstream, with an empty extension.
  pub resolve_requested_extensions-empty :
      role_beq u.role user ≡ false
      → resolve_tl_extensions t u ≡ some []
      → requested_extensions params ≡ some none
      → resolve_requested_extensions t u params ≡ some (some ([] ∷ []))
  unfolding sorted_set combine split join
  resolve_requested_extensions-empty role x q =
      resolve-granted t u params plain [] role x ∙ rw q refl

  -- A caller with the role of a user but without an extension is not restricted: it gets one call
  -- without a filter, or exactly the extensions that it asked for.
  pub resolve_requested_extensions-nobody :
      (asked : Option (List Text))
      → u.role ≡ user
      → extension_of t.extensions u.id ≡ none
      → requested_extensions params ≡ some asked
      → ((asked ≡ none) × (resolve_requested_extensions t u params ≡ some none))
        ⊎ ((req : List Text) × (asked ≡ some req)
            × (resolve_requested_extensions t u params ≡ some (some (dedupe req))))
  unfolding combine
  resolve_requested_extensions-nobody none role x q =
      inl (refl, resolve-nobody t u params plain role x ∙ rw q refl)
  resolve_requested_extensions-nobody (some req) role x q =
      inr (req, refl, resolve-nobody t u params plain role x ∙ rw q refl)
