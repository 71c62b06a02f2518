-- ===== src/Messaging/Sound.antt =====
-- Messages with their ids and the ids of the provider, as their tables are Written.
use mathlib.Core.Path.{subst}
use mathlib.Core.Option.{some-injective}
use unified_communication_ba.Common.{
  In-update_where, ℕ, ◌<◌, ◌≡◌, ◌⊎◌, inl, inr, refl, sym, ap, ◌∙◌, Bool, true, false, Option, some,
  List, [], ◌∷◌, ◌++◌, map, Text, ◌==◌, nat_eq, nat_beq_iff, list_eq, option_eq, option_beq_iff,
  any, any-In, update_where, contains, contains_iff, In, In-append, In-map, Distinct, arith,
  Bool-cases,
}
use unified_communication_ba.Messaging.Defs.{Message, Store}
use unified_communication_ba.Messaging.Same.{IsFresh}
use unified_communication_ba.Messaging.Rows.{taken_by, create_message, save_message}

-- Messages with the same id of the provider are one row.
abbrev pub OneKey : List Message → Type 0
OneKey ms =
    (a b : Message) (k : Text)
    → In a ms
    → In b ms
    → a.telnyx_message_id ≡ some k
    → b.telnyx_message_id ≡ some k
    → a.id ≡ b.id

-- The ids in the tables are below the next ones, and each names one message.
pub record IsSound (s : Store) : Type 0 where
  pub fresh : IsFresh s.threads
  pub below : (m : Message) → In m s.messages → m.id < s.next_id
  pub distinct : Distinct (map (λ (m : Message). m.id) s.messages)
  pub one_key : OneKey s.messages

not_any :
    {A : Type 0} (p : A → Bool) (a : A) (xs : List A) → any p xs ≡ false → In a xs → p a ≡ false
not_any p a xs h i = ground (arith, any-In p a xs i)

module _ (m : Message) where
  abbrev ids : List Message → List ℕ
  ids = map (λ (x : Message). x.id)

  -- A row with the key of `m` is `m` itself, where no other row has it.
  not_taken :
      (ms : List Message) (x : Message) (k : Text)
      → any (taken_by m.id m.telnyx_message_id) ms ≡ false
      → In x ms
      → m.telnyx_message_id ≡ some k
      → x.telnyx_message_id ≡ some k
      → x.id ≡ m.id
  not_taken ms x k h i e f =
      let t : taken_by m.id (some k) x ≡ false =
        subst (λ (o : Option Text). taken_by m.id o x ≡ false) e
          (not_any (taken_by m.id m.telnyx_message_id) x ms h i) in
      ground (arith, nat_beq_iff x.id m.id, option_beq_iff x.telnyx_message_id (some k))

  module _ (ms : List Message) (one : OneKey ms)
      (t : any (taken_by m.id m.telnyx_message_id) ms ≡ false) (a b : Message) (k : Text)
      (p : a.telnyx_message_id ≡ some k) (q : b.telnyx_message_id ≡ some k) where
    appended-OneKey : In a ms ⊎ In a (m ∷ []) → In b ms ⊎ In b (m ∷ []) → a.id ≡ b.id
    appended-OneKey (inl i) (inl j) = one a b k i j p q
    appended-OneKey (inl i) (inr (inl f)) =
        not_taken ms a k t i (rw f at q) p ∙ ap (λ (x : Message). x.id) (sym f)
    appended-OneKey (inl i) (inr (inr f)) = absurd f
    appended-OneKey (inr (inl f)) (inl j) =
        ap (λ (x : Message). x.id) f ∙ sym (not_taken ms b k t j (rw f at p) q)
    appended-OneKey (inr (inl f)) (inr (inl g)) = ap (λ (x : Message). x.id) (f ∙ sym g)
    appended-OneKey (inr (inl f)) (inr (inr g)) = absurd g
    appended-OneKey (inr (inr f)) j = absurd f

    -- The row `m`, or one that is kept.
    abbrev Written : Message → Type 0
    Written x =
        ((y : Message) × In y ms × ((y.id == m.id) ≡ true) × (x ≡ m))
        ⊎ (In x ms × ((x.id == m.id) ≡ false))

    updated-OneKey : Written a → Written b → a.id ≡ b.id
    updated-OneKey (inl (y, i, c, f)) (inl (z, j, d, g)) = ap (λ (x : Message). x.id) (f ∙ sym g)
    updated-OneKey (inl (y, i, c, f)) (inr (j, d)) =
        ap (λ (x : Message). x.id) f ∙ sym (not_taken ms b k t j (rw f at p) q)
    updated-OneKey (inr (i, c)) (inl (z, j, d, g)) =
        not_taken ms a k t i (rw g at q) p ∙ ap (λ (x : Message). x.id) (sym g)
    updated-OneKey (inr (i, c)) (inr (j, d)) = one a b k i j p q

  Distinct-append :
      (ms : List Message)
      → Distinct (ids ms)
      → contains (ids ms) m.id ≡ false
      → Distinct (ids (ms ++ m ∷ []))
  unfolding contains
  Distinct-append [] d h = (refl, tt)
  Distinct-append (x ∷ ms) d h = (
    append-contains x.id ms d.0 (ground (arith, nat_beq_iff x.id m.id, nat_beq_iff m.id x.id)),
    Distinct-append ms d.1 (ground arith),
  )
    where
      append-contains :
          (k : ℕ) (ms : List Message)
          → contains (ids ms) k ≡ false
          → k == m.id ≡ false
          → contains (ids (ms ++ m ∷ [])) k ≡ false
      append-contains k [] h e = ground arith
      append-contains k (y ∷ ms) h e = ground (arith, append-contains k ms)

  ids-update_where :
      (ms : List Message) → ids (update_where (λ (x : Message). x.id == m.id) (λ _. m) ms) ≡ ids ms
  unfolding update_where
  ids-update_where [] = refl
  ids-update_where (x ∷ ms) = ground (arith, ids-update_where ms, nat_beq_iff x.id m.id)

  module _ (s : Store) (sound : IsSound s) where
    not_contained : m.id ≡ s.next_id → contains (ids s.messages) m.id ≡ false
    not_contained e = elim (Bool-cases (contains (ids s.messages) m.id)) [
      | inr h ↦ h
      | inl h ↦
          let (x, i, q) =
            In-map (λ (x : Message). x.id) m.id s.messages
              ((contains_iff (ids s.messages) m.id).0 h) in
          absurd (ground (arith, sound.below x i))
    ]

    -- A new row keeps the tables sound.
    pub create_message-IsSound :
        (s' : Store) → create_message m s ≡ some s' → m.id ≡ s.next_id → IsSound s'
    unfolding create_message
    create_message-IsSound s' h e =
        elim (Bool-cases (any (taken_by m.id m.telnyx_message_id) s.messages)) [
          | inl t ↦ let q = rw t at h in absurd cc
          | inr t ↦ subst IsSound (some-injective _ _ (rw t at h)) (record {
            fresh = sound.fresh;
            below = λ x i. elim ((In-append x s.messages (m ∷ [])).0 i) [
              | inl j ↦ ground (arith, sound.below x j)
              | inr (inl q) ↦ rw q (ground arith)
              | inr (inr q) ↦ absurd q
            ];
            distinct = Distinct-append s.messages sound.distinct (not_contained e);
            one_key = λ a b k i j p q.
                appended-OneKey s.messages sound.one_key t a b k p q
                  ((In-append a s.messages (m ∷ [])).0 i) ((In-append b s.messages (m ∷ [])).0 j);
          })
        ]

    -- So does writing a row that is there.
    pub save_message-IsSound :
        (s' : Store) (o : Message)
        → save_message m s ≡ some s'
        → In o s.messages
        → o.id ≡ m.id
        → IsSound s'
    unfolding save_message
    save_message-IsSound s' o h i e =
        let p = λ (x : Message). x.id == m.id in
        elim (Bool-cases (any (taken_by m.id m.telnyx_message_id) s.messages)) [
          | inl t ↦ let q = rw t at h in absurd cc
          | inr t ↦ subst IsSound (some-injective _ _ (rw t at h)) (record {
            fresh = sound.fresh;
            below = λ x j. elim (In-update_where p (λ _. m) x s.messages j) [
              | inl (y, k, q, f) ↦ rw f (rw (← e) (sound.below o i))
              | inr (k, q) ↦ sound.below x k
            ];
            distinct = subst Distinct (sym (ids-update_where s.messages)) sound.distinct;
            one_key = λ a b k j l f g.
                updated-OneKey s.messages sound.one_key t a b k f g
                  (In-update_where p (λ _. m) a s.messages j)
                  (In-update_where p (λ _. m) b s.messages l);
          })
        ]
