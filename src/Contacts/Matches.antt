-- ===== src/Contacts/Matches.antt =====
-- `build_contact_lookup` against a direct description: the first stored number with the same key.
use mathlib.Core.Path.{fun_ext}
use unified_communication_ba.Common.{
  ℕ, ◌≡◌, refl, ap, ◌∙◌, Bool, false, ◌&&◌, ◌||◌, Option, none, some, List, [], ◌∷◌, Text, nonempty,
  select, first, ◌==◌, nat_eq, list_eq, list_beq_iff, if◌then◌else◌, Dict, get, get-put, or_default,
  contains, arith, inl, inr, Bool-cases,
}
use unified_communication_ba.Contacts.Lookup.{
  ContactNumber, match_key, add_key, group_keys, set_default, set_defaults, match_candidates,
  build_contact_lookup,
}

abbrev bucket : Text → Dict Text (List Text) → List Text
bucket k keys = or_default (get k keys) []

get-add_key :
    (raw k : Text) (keys : Dict Text (List Text)) (n : Text)
    → contains (bucket k (add_key raw keys)) n
      ≡ (n == raw && nonempty (match_key raw) && match_key raw == k) || contains (bucket k keys) n
unfolding add_key contains
get-add_key raw k keys n = ground (
  arith,
  get-put (match_key raw) k (raw ∷ or_default (get (match_key raw) keys) []) keys,
  list_beq_iff (match_key raw) k,
)

-- A number is in the bucket of a key when it is listed and that is its own key.
contains-group_keys :
    (ns : List Text) (keys : Dict Text (List Text)) (k n : Text)
    → contains (bucket k (group_keys ns keys)) n
      ≡ (contains ns n && nonempty (match_key n) && match_key n == k) || contains (bucket k keys) n
unfolding group_keys contains
contains-group_keys [] keys k n = ground arith
contains-group_keys (m ∷ ns) keys k n =
    ground
      (arith, contains-group_keys ns (add_key m keys) k n, get-add_key m k keys n, list_beq_iff n m)

abbrev or_value : Option ℕ → Option ℕ → Option ℕ
or_value none b = b
or_value (some a) b = some a

get-set_default :
    (k : Text) (v : ℕ) (d : Dict Text ℕ) (n : Text)
    → get n (set_default k v d) ≡ or_value (get n d) (if n == k then some v else none)
unfolding set_default
get-set_default k v d n = ground (arith, get-put k n v d, list_beq_iff k n, list_beq_iff n k)

get-set_defaults :
    (ks : List Text) (v : ℕ) (d : Dict Text ℕ) (n : Text)
    → get n (set_defaults ks v d) ≡ or_value (get n d) (if contains ks n then some v else none)
unfolding set_defaults contains
get-set_defaults [] v d n = ground arith
get-set_defaults (k ∷ ks) v d n =
    ground (arith, get-set_defaults ks v (set_default k v d) n, get-set_default k v d n)

abbrev pub contact_of : Option ContactNumber → Option ℕ
contact_of none = none
contact_of (some c) = some c.contact_id

get-match_candidates :
    (keys : Dict Text (List Text)) (cs : List ContactNumber) (d : Dict Text ℕ) (n : Text)
    → get n (match_candidates keys cs d)
      ≡ or_value (get n d) (
          contact_of
            (first (λ (c : ContactNumber). contains (bucket (match_key c.number) keys) n) cs))
unfolding match_candidates first
get-match_candidates keys [] d n = ground arith
get-match_candidates keys (c ∷ cs) d n = ground (
  arith,
  get-match_candidates keys cs (set_defaults (bucket (match_key c.number) keys) c.contact_id d) n,
  get-set_defaults (bucket (match_key c.number) keys) c.contact_id d n,
)

first-select :
    (p q : ContactNumber → Bool) (xs : List ContactNumber)
    → first p (select q xs) ≡ first (λ c. q c && p c) xs
unfolding first select
first-select p q [] = refl
first-select p q (x ∷ xs) = ground (arith, first-select p q xs)

first-ext :
    (p q : ContactNumber → Bool) (xs : List ContactNumber)
    → ((c : ContactNumber) → p c ≡ q c)
    → first p xs ≡ first q xs
first-ext p q xs h = ap (λ (f : ContactNumber → Bool). first f xs) (fun_ext h)

first-never : (xs : List ContactNumber) → first (λ _. false) xs ≡ none
unfolding first
first-never [] = refl
first-never (x ∷ xs) = first-never xs

empty_bucket : (k n : Text) → contains (bucket k []) n ≡ false
unfolding contains get
empty_bucket k n = refl

module _ (table : List ContactNumber) (tenant : ℕ) (numbers : List Text) (n : Text) where
  abbrev keyed : ContactNumber → Bool
  keyed c = contains (bucket (match_key c.number) (group_keys numbers [])) n

  keyed_lem :
      (c : ContactNumber)
      → keyed c
        ≡ (contains numbers n && nonempty (match_key n)) && match_key n == match_key c.number
  keyed_lem c = ground (
    arith,
    contains-group_keys numbers [] (match_key c.number) n,
    empty_bucket (match_key c.number) n,
  )

  -- The dictionary holds exactly the listed numbers that have a key and a match: each with the contact
  -- of the first stored number of the tenant that has the same key.
  pub get-build_contact_lookup : get n (build_contact_lookup table tenant numbers) ≡ (
      if contains numbers n && nonempty (match_key n)
      then contact_of (
          first
            (λ (c : ContactNumber). c.tenant == tenant && match_key n == match_key c.number)
            table)
      else none)
  unfolding build_contact_lookup
  get-build_contact_lookup =
      let mine = λ (c : ContactNumber). c.tenant == tenant in
      let keys = group_keys numbers [] in
      get-match_candidates keys (select mine table) [] n
      ∙ unfold get in
        ap contact_of (first-select keyed mine table)
        ∙ elim (Bool-cases (contains numbers n && nonempty (match_key n))) [
          | inl e ↦ rw e (
              ap contact_of (
                first-ext (λ c. mine c && keyed c)
                  (λ (c : ContactNumber). c.tenant == tenant && match_key n == match_key c.number)
                  table (λ c. ground (arith, keyed_lem c))))
          | inr e ↦ rw e (
              ap contact_of (
                first-ext (λ c. mine c && keyed c) (λ _. false) table
                  (λ c. ground (arith, keyed_lem c))
                ∙ first-never table))
        ]
