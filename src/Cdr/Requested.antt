-- ===== src/Cdr/Requested.antt =====
-- `_resolve_requested_extensions` (apps/common/cdr_views.py): which extensions are asked for upstream.
use mathlib.Core.Path.{subst}
use mathlib.Core.Option.{some-injective}
use unified_communication_ba.Common.{
  ◌≡◌, ◌↔◌, refl, ap, true, false, Option, none, some, List, [], ◌∷◌, Text, codes, nonempty,
  list_eq, nat_eq, list_beq_iff, get, put, get-put, select, contains, contains_iff, dedupe,
  In-dedupe, In-sort_by, text_leb, split, join, In, In-select, arith,
}
use unified_communication_ba.Models.{User, Extension, role_beq, role_beq_iff, user}
use unified_communication_ba.Scoping.{Tables, extension_of, resolve_tl_extensions}
use unified_communication_ba.Cdr.Params.{one, Params}
use unified_communication_ba.Cdr.Scope.{
  sorted_set, scope_to_own, scope_to_granted, apply_user_extension_scoping, scoping_keys,
  without_extension, requested_extensions, allowed_by, allowed_extensions, combine, both,
  resolve_requested_extensions,
}

get-removed :
    (k : Text) (params : Params)
    → contains scoping_keys k ≡ true
    → get k (without_extension params) ≡ none
unfolding without_extension select get
get-removed k [] h = refl
get-removed k ((j, v) ∷ params) h =
    ground
      (arith, get-removed k params h, list_beq_iff k j, λ (e : k ≡ j). ap (contains scoping_keys) e)

pub In-sorted_set : (x : Text) (xs : List Text) → In x (sorted_set xs) ↔ In x xs
unfolding sorted_set
In-sorted_set x xs = ground (arith, In-sort_by text_leb x (dedupe xs), In-dedupe x xs)

allowed_none : (params : Params) → allowed_extensions (without_extension params) ≡ some none
unfolding allowed_extensions allowed_by contains
allowed_none params =
    rw (get-removed (codes "extension") params refl)
      (rw (get-removed (codes "extension__in") params refl) refl)

allowed_own :
    (e : Text) (params : Params)
    → allowed_extensions (put (codes "extension") (one e) (without_extension params))
      ≡ some (some (e ∷ []))
unfolding allowed_extensions allowed_by contains
allowed_own e params =
    rw (get-put (codes "extension") (codes "extension") (one e) (without_extension params)) refl

allowed_granted :
    (s : Text) (params : Params)
    → allowed_extensions (put (codes "extension__in") (one s) (without_extension params))
      ≡ some (some (split s))
unfolding allowed_extensions allowed_by contains
allowed_granted s params =
    rw (get-put (codes "extension__in") (codes "extension") (one s) (without_extension params)) (
      rw (get-removed (codes "extension") params refl) (
        rw
          (get-put (codes "extension__in") (codes "extension__in") (one s)
            (without_extension params))
          refl))

module _ (t : Tables) (u : User) (params : Params) (plain : u.is_superuser ≡ false) where
  pub resolve-own :
      (e : Extension)
      → u.role ≡ user
      → extension_of t.extensions u.id ≡ some e
      → nonempty e.extension_number ≡ true
      → resolve_requested_extensions t u params
        ≡ both (requested_extensions params) (some (some (e.extension_number ∷ [])))
  unfolding resolve_requested_extensions apply_user_extension_scoping scope_to_own
  resolve-own e r x n = rw plain (
      rw ((role_beq_iff u.role user).1 r)
        (rw x (rw n (rw (allowed_own e.extension_number params) refl))))

  pub resolve-nobody :
      u.role ≡ user
      → extension_of t.extensions u.id ≡ none
      → resolve_requested_extensions t u params ≡ both (requested_extensions params) (some none)
  unfolding resolve_requested_extensions apply_user_extension_scoping scope_to_own
  resolve-nobody r x =
      rw plain (rw ((role_beq_iff u.role user).1 r) (rw x (rw (allowed_none params) refl)))

  pub resolve-granted :
      (exts : List Text)
      → role_beq u.role user ≡ false
      → resolve_tl_extensions t u ≡ some exts
      → resolve_requested_extensions t u params
        ≡ both (requested_extensions params) (some (some (split (join (sorted_set exts)))))
  unfolding resolve_requested_extensions apply_user_extension_scoping scope_to_granted
  resolve-granted exts r x =
      rw plain (rw r (rw x (rw (allowed_granted (join (sorted_set exts)) params) refl)))

-- What a caller asks for: everything it may see, or a list.
abbrev pub Asked : Option (List Text) → Text → Type 0
Asked none x = Unit
Asked (some requested) x = In x requested

pub In-combine :
    (requested : Option (List Text)) (allowed : List Text) (x : Text) (xs : List Text)
    → combine requested (some allowed) ≡ some xs
    → In x xs ↔ (In x allowed × Asked requested x)
unfolding combine
In-combine none allowed x xs h =
    subst (λ (xs : List Text). In x xs ↔ (In x allowed × Unit)) (some-injective _ _ h)
      (ground (arith, In-sorted_set x allowed))
In-combine (some requested) allowed x xs h =
    subst (λ (xs : List Text). In x xs ↔ (In x allowed × In x requested)) (some-injective _ _ h)
      (ground (
        arith,
        In-dedupe x (select (contains allowed) requested),
        In-select (contains allowed) x requested,
        contains_iff allowed x,
      ))

pub combine-some :
    (requested : Option (List Text)) (allowed : List Text)
    → (xs : List Text) × (combine requested (some allowed) ≡ some xs)
unfolding combine
combine-some none allowed = (_, refl)
combine-some (some requested) allowed = (_, refl)
