-- ===== src/Cdr/Scope.antt =====
-- apps/common/cdr_views.py, `_apply_user_extension_scoping` and `_resolve_requested_extensions`. An
-- exception (a parameter that is given twice has no `split`) is `none`.
use unified_communication_ba.Common.{
  not, Option, none, some, List, [], ◌∷◌, Text, codes, nonempty, list_eq, nat_eq, if◌then◌else◌,
  get, put, select, contains, dedupe, sort_by, text_leb, split, split_list, join,
}
use unified_communication_ba.Models.{User, Extension, role_beq, user}
use unified_communication_ba.Scoping.{Tables, extension_of, resolve_tl_extensions}
use unified_communication_ba.Cdr.Params.{ParamValue, one, many, Params, given}

-- `sorted(set(xs))`
unfoldable pub sorted_set : List Text → List Text
unfolding sort_by text_leb dedupe
sorted_set xs = sort_by text_leb (dedupe xs)

unfoldable pub scope_to_own : Option Extension → Params → Params
unfolding put
scope_to_own none params = params
scope_to_own (some e) params =
    if nonempty e.extension_number
    then put (codes "extension") (one e.extension_number) params
    else params

unfoldable pub scope_to_granted : Option (List Text) → Params → Params
unfolding put sorted_set join
scope_to_granted none params = params
scope_to_granted (some exts) params =
    put (codes "extension__in") (one (join (sorted_set exts))) params

unfoldable pub apply_user_extension_scoping : Tables → User → Params → Params
unfolding role_beq extension_of scope_to_own resolve_tl_extensions scope_to_granted
apply_user_extension_scoping t u params =
    if u.is_superuser
    then params
    else if role_beq u.role user
    then scope_to_own (extension_of t.extensions u.id) params
    else scope_to_granted (resolve_tl_extensions t u) params

abbrev pub scoping_keys : List Text
scoping_keys = codes "extension" ∷ codes "extension__in" ∷ []

unfoldable pub without_extension : Params → Params
unfolding select contains
without_extension params =
    select (λ (e : Text × ParamValue). not (contains scoping_keys e.0)) params

-- `[e.strip() for e in v.split(",") if e.strip()]`
unfoldable pub split_given : Option ParamValue → Option (Option (List Text))
unfolding split_list
split_given none = some none
split_given (some (one s)) = some (some (split_list s))
split_given (some (many vs)) = none

abbrev pub or_param : Option ParamValue → Option ParamValue → Option ParamValue
or_param none b = b
or_param (some a) b = some a

-- The extensions that the caller asks for, if it asks.
unfoldable pub requested_extensions : Params → Option (Option (List Text))
unfolding given get split_given
requested_extensions params = split_given (
    or_param
      (or_param (given (get (codes "extension__in") params))
        (given (get (codes "extension_ids") params)))
      (given (get (codes "extension") params)))

-- The extensions that the scoping allows, if it restricts them.
unfoldable pub allowed_by : Option ParamValue → Option ParamValue → Option (Option (List Text))
unfolding split
allowed_by (some (one e)) many_exts = some (some (e ∷ []))
allowed_by (some (many vs)) many_exts = none
allowed_by none (some (one s)) = some (some (split s))
allowed_by none (some (many vs)) = none
allowed_by none none = some none

unfoldable pub allowed_extensions : Params → Option (Option (List Text))
unfolding get allowed_by
allowed_extensions scoped =
    allowed_by (get (codes "extension") scoped) (get (codes "extension__in") scoped)

unfoldable pub combine : Option (List Text) → Option (List Text) → Option (List Text)
unfolding sorted_set dedupe select contains
combine none none = none
combine none (some allowed) = some (sorted_set allowed)
combine (some requested) none = some (dedupe requested)
combine (some requested) (some allowed) = some (dedupe (select (contains allowed) requested))

abbrev pub both :
    Option (Option (List Text)) → Option (Option (List Text)) → Option (Option (List Text))
both none a = none
both (some r) none = none
both (some r) (some a) = some (combine r a)

-- `some none` is one call without a filter; else one call for each extension.
unfoldable pub resolve_requested_extensions : Tables → User → Params → Option (Option (List Text))
unfolding requested_extensions allowed_extensions apply_user_extension_scoping without_extension
    combine
resolve_requested_extensions t u params =
    both (requested_extensions params)
      (allowed_extensions (apply_user_extension_scoping t u (without_extension params)))
