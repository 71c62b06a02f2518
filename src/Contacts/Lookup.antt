-- ===== src/Contacts/Lookup.antt =====
-- apps/contacts/services.py, `_match_key` and `build_contact_lookup`, with the columns of ContactNumber
-- (apps/contacts/models.py) that they read. The table lists the numbers in the order of the query.
use unified_communication_ba.Common.{
  ℕ, ◌-◌, List, [], ◌∷◌, Text, nonempty, is_digit, select, length, drop, ◌==◌, nat_eq, list_eq,
  if◌then◌else◌, Dict, get, put, or_default, is_some,
}

pub record ContactNumber : Type 0 where
  pub contact_id : ℕ
  pub tenant : ℕ
  pub number : Text

-- `_DIGITS_RE.sub("", s)`
unfoldable pub digits_of : Text → Text
unfolding select is_digit
digits_of = select is_digit

-- `digits[-10:] if len(digits) >= 10 else digits`
unfoldable pub match_key : Text → Text
unfolding digits_of
match_key raw = let digits = digits_of raw in drop (length digits - 10) digits

-- `keys.setdefault(key, set()).add(raw_number)`
unfoldable pub add_key : Text → Dict Text (List Text) → Dict Text (List Text)
unfolding match_key put get
add_key raw keys =
    let key = match_key raw in
    if nonempty key then put key (raw ∷ or_default (get key keys) []) keys else keys

unfoldable pub group_keys : List Text → Dict Text (List Text) → Dict Text (List Text)
unfolding add_key
group_keys [] keys = keys
group_keys (n ∷ ns) keys = group_keys ns (add_key n keys)

-- `result.setdefault(raw_number, {... "contact_id": contact_id})`
unfoldable pub set_default : Text → ℕ → Dict Text ℕ → Dict Text ℕ
unfolding put get
set_default k v d = if is_some (get k d) then d else put k v d

unfoldable pub set_defaults : List Text → ℕ → Dict Text ℕ → Dict Text ℕ
unfolding set_default
set_defaults [] v d = d
set_defaults (k ∷ ks) v d = set_defaults ks v (set_default k v d)

unfoldable pub match_candidates :
    Dict Text (List Text) → List ContactNumber → Dict Text ℕ → Dict Text ℕ
unfolding match_key get set_defaults
match_candidates keys [] d = d
match_candidates keys (c ∷ cs) d =
    match_candidates keys cs
      (set_defaults (or_default (get (match_key c.number) keys) []) c.contact_id d)

-- The contact of each number that has one; no key at all gives the empty dictionary.
unfoldable pub build_contact_lookup : List ContactNumber → ℕ → List Text → Dict Text ℕ
unfolding group_keys match_candidates select
build_contact_lookup table tenant numbers =
    match_candidates (group_keys numbers [])
      (select (λ (c : ContactNumber). c.tenant == tenant) table) []
