-- ===== src/Contacts/Tests.antt =====
-- Tests and instances of the theorems on contact matching.
use unified_communication_ba.Common.{
  ℕ, ◌≡◌, refl, none, some, List, [], ◌∷◌, Text, codes, get, list_eq, nat_eq, ◌==◌, first, contains,
  nonempty, ◌&&◌, if◌then◌else◌,
}
use unified_communication_ba.Contacts.Lookup.{ContactNumber, match_key, build_contact_lookup}
use unified_communication_ba.Contacts.Matches.{contact_of, get-build_contact_lookup}

abbrev stored : ℕ → ℕ → Text → ContactNumber
stored contact tenant n = record { contact_id = contact; tenant = tenant; number = n }

-- (555) 010-1234 is stored by tenant 2, and by two contacts of tenant 1.
abbrev table : List ContactNumber
table =
    stored 5 2 (codes "5550101234")
    ∷ stored 7 1 (codes "+1 (555) 010-1234")
    ∷ stored 8 1 (codes "555 010 1234")
    ∷ []

abbrev asked : Text
asked = codes "15550101234"

lookup-asked : get asked (build_contact_lookup table 1 (asked ∷ [])) ≡ some 7
unfolding build_contact_lookup get
lookup-asked = refl

get-build_contact_lookup_example : get asked (build_contact_lookup table 1 (asked ∷ [])) ≡ (
    if contains (asked ∷ []) asked && nonempty (match_key asked)
    then contact_of (
        first (λ (c : ContactNumber). c.tenant == 1 && match_key asked == match_key c.number) table)
    else none)
get-build_contact_lookup_example = get-build_contact_lookup table 1 (asked ∷ []) asked
