-- ===== src/Webhooks/FreeSwitch/Rows.antt =====
-- The rows of one tenant in a table, under changes to the rows of another.
use unified_communication_ba.Common.{
  ℕ, ◌≡◌, ◌≢◌, refl, inl, inr, Bool, true, not, List, [], ◌∷◌, ◌++◌, ◌==◌, nat_eq, nat_beq_iff,
  arith, select, update_where, In,
}

module _ {A : Type 0} (tenant_of id_of : A → ℕ) where
  abbrev pub rows : ℕ → List A → List A
  rows u xs = select (λ a. tenant_of a == u) xs

  module _ (t u : ℕ) (n : u ≢ t) where
    pub rows-append : (a : A) (xs : List A) → tenant_of a ≡ t → rows u (xs ++ a ∷ []) ≡ rows u xs
    unfolding select
    rows-append a [] e = ground (arith, nat_beq_iff (tenant_of a) u)
    rows-append a (x ∷ xs) e = ground (arith, rows-append a xs e)

    pub rows-update_where :
        (a : A) (xs : List A)
        → tenant_of a ≡ t
        → ((x : A) → In x xs → id_of x ≡ id_of a → tenant_of x ≡ t)
        → rows u (update_where (λ x. id_of x == id_of a) (λ _. a) xs) ≡ rows u xs
    unfolding select update_where
    rows-update_where a [] e h = refl
    rows-update_where a (x ∷ xs) e h = ground (
      arith,
      rows-update_where a xs e (λ y i. h y (inr i)),
      h x (inl refl),
      nat_beq_iff (id_of x) (id_of a),
      nat_beq_iff (tenant_of a) u,
      nat_beq_iff (tenant_of x) u,
    )

    pub rows-select :
        (p : A → Bool) (xs : List A)
        → ((x : A) → p x ≡ true → tenant_of x ≡ t)
        → rows u (select (λ x. not (p x)) xs) ≡ rows u xs
    unfolding select
    rows-select p [] h = refl
    rows-select p (x ∷ xs) h = ground (arith, rows-select p xs h, h x, nat_beq_iff (tenant_of x) u)
