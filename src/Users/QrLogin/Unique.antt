-- ===== src/Users/QrLogin/Unique.antt =====
-- The table of the QR login views after requests: the rows with a token.
use unified_communication_ba.Common.{
  In-update_where, ℕ, ◌≡◌, ◌⊎◌, refl, sym, ap, ◌∙◌, inl, inr, Bool, true, false, ◌&&◌, not, Option,
  none, some, List, [], ◌∷◌, Text, nonempty, list_eq, nat_eq, list_beq_iff, first, any, any-In,
  update_where, In, In-append, In-select, arith, Option-cases, Bool-cases,
}
use unified_communication_ba.Users.QrLogin.{
  QrLoginStatus, pending, approved, consumed, QrLoginToken, Tokens, is_expired, has_token,
  is_pending, delete, opened, initiate, approve, consume, confirm_row, confirm, poll_live,
  is_consumed, poll_row, poll, QrRequest, initiating, confirming, polling, handle,
}

-- The tables that requests lead to from the empty one, with the requests, the last one first.
pub data Reached : List QrRequest → Tokens → Type 0 where
  start : Reached [] []
  served :
      (r : QrRequest) {rs : List QrRequest} {ts : Tokens}
      → Reached rs ts
      → Reached (r ∷ rs) (handle r ts).1

-- A row that is kept as it is, or a changed one.
pub In-update :
    (p : QrLoginToken → Bool) (f : QrLoginToken → QrLoginToken) (b : QrLoginToken) (ts : Tokens)
    → In b (update_where p f ts)
    → (In b ts × (p b ≡ false)) ⊎ ((a : QrLoginToken) × In a ts × (p a ≡ true) × (b ≡ f a))
In-update p f b ts i = elim (In-update_where p f b ts i) [ inl x ↦ inr x | inr x ↦ inl x ]

-- A token names one row.
abbrev pub IsUnique : Tokens → Type 0
IsUnique ts = (a b : QrLoginToken) → In a ts → In b ts → a.token ≡ b.token → a ≡ b

IsUnique-delete : (k : Text) (ts : Tokens) → IsUnique ts → IsUnique (delete k ts)
IsUnique-delete k ts h a b i j =
    h a b ((In-select (λ q. not (has_token k q)) a ts).0 i).0
      ((In-select (λ q. not (has_token k q)) b ts).0 j).0

IsUnique-update :
    (k : Text) (f : QrLoginToken → QrLoginToken) (ts : Tokens)
    → ((q : QrLoginToken) → (f q).token ≡ q.token)
    → IsUnique ts
    → IsUnique (update_where (has_token k) f ts)
IsUnique-update k f ts keep h a b i j e = elim (In-update (has_token k) f a ts i) [
  | inl (i', p) ↦ elim (In-update (has_token k) f b ts j) [
    | inl (j', q) ↦ h a b i' j' e
    | inr (d, j', q, g) ↦ absurd (
        ground (
          arith,
          list_beq_iff a.token k,
          list_beq_iff d.token k,
          keep d,
          ap (λ (r : QrLoginToken). r.token) g,
        ))
  ]
  | inr (c, i', p, f') ↦ elim (In-update (has_token k) f b ts j) [
    | inl (j', q) ↦ absurd (
        ground (
          arith,
          list_beq_iff b.token k,
          list_beq_iff c.token k,
          keep c,
          ap (λ (r : QrLoginToken). r.token) f',
        ))
    | inr (d, j', q, g) ↦
        f'
        ∙ ap f (h c d i' j' (ground (arith, list_beq_iff c.token k, list_beq_iff d.token k)))
        ∙ sym g
  ]
]

no-token :
    (k : Text) (a : QrLoginToken) (ts : Tokens)
    → any (has_token k) ts ≡ false
    → In a ts
    → a.token ≡ k
    → ⊥
no-token k a ts h i e = ground (arith, any-In (has_token k) a ts i, list_beq_iff a.token k)

IsUnique-initiate :
    (k : Text) (now : ℕ) (ts : Tokens) → IsUnique ts → IsUnique (initiate k now ts).1
unfolding initiate
IsUnique-initiate k now ts h = elim (Bool-cases (any (has_token k) ts)) [
  | inl e ↦ rw e h
  | inr e ↦ rw e (λ a b i j f. elim ((In-append a ts (opened k now ∷ [])).0 i) [
    | inl i' ↦ elim ((In-append b ts (opened k now ∷ [])).0 j) [
      | inl j' ↦ h a b i' j' f
      | inr (inl g) ↦ absurd (no-token k a ts e i' (f ∙ ap (λ (r : QrLoginToken). r.token) g))
      | inr (inr g) ↦ absurd g
    ]
    | inr (inl g) ↦ elim ((In-append b ts (opened k now ∷ [])).0 j) [
      | inl j' ↦ absurd (no-token k b ts e j' (sym f ∙ ap (λ (r : QrLoginToken). r.token) g))
      | inr (inl g') ↦ g ∙ sym g'
      | inr (inr g') ↦ absurd g'
    ]
    | inr (inr g) ↦ absurd g
  ])
]

after-live :
    (P : Tokens → Type 0) (k : Text) (ts : Tokens) (s : QrLoginStatus) (u : Option ℕ)
    → P ts
    → P (update_where (has_token k) consume ts)
    → P (poll_live k ts s u).1
unfolding poll_live
after-live P k ts pending u a c = a
after-live P k ts consumed u a c = a
after-live P k ts approved none a c = a
after-live P k ts approved (some u) a c = c

-- What a poll does to a table: nothing, or the deletion or the consumption of the token.
pub after-poll :
    (P : Tokens → Type 0) (k : Text) (now : ℕ) (ts : Tokens)
    → P ts
    → P (delete k ts)
    → P (update_where (has_token k) consume ts)
    → P (poll k now ts).1
unfolding poll poll_row
after-poll P k now ts a b c = elim (Bool-cases (nonempty k)) [
  | inl n ↦ elim (Option-cases (first (has_token k) ts)) [
    | inl e ↦ rw n (rw e a)
    | inr (q, e) ↦ elim (Bool-cases (is_consumed q.status)) [
      | inl x ↦ rw n (rw e (rw x a))
      | inr x ↦ elim (Bool-cases (is_expired now q)) [
        | inl y ↦ rw n (rw e (rw x (rw y b)))
        | inr y ↦ rw n (rw e (rw x (rw y (after-live P k ts q.status q.user a c))))
      ]
    ]
  ]
  | inr n ↦ rw n a
]

IsUnique-confirm :
    (u : ℕ) (k : Text) (now : ℕ) (ts : Tokens) → IsUnique ts → IsUnique (confirm u k now ts).1
unfolding confirm confirm_row
IsUnique-confirm u k now ts h = elim (Bool-cases (nonempty k)) [
  | inl n ↦ elim (Option-cases (first (λ q. has_token k q && is_pending q.status) ts)) [
    | inl e ↦ rw n (rw e h)
    | inr (q, e) ↦ elim (Bool-cases (is_expired now q)) [
      | inl x ↦ rw n (rw e (rw x (IsUnique-delete k ts h)))
      | inr x ↦ rw n (rw e (rw x (IsUnique-update k (approve u) ts (λ q. refl) h)))
    ]
  ]
  | inr n ↦ rw n h
]

pub IsUnique-Reached : {rs : List QrRequest} {ts : Tokens} → Reached rs ts → IsUnique ts
unfolding handle
IsUnique-Reached start = λ a b i. absurd i
IsUnique-Reached (served (initiating k now) {rs} {ts} h) =
    IsUnique-initiate k now ts (IsUnique-Reached h)
IsUnique-Reached (served (confirming u k now) {rs} {ts} h) =
    IsUnique-confirm u k now ts (IsUnique-Reached h)
IsUnique-Reached (served (polling k now) {rs} {ts} h) =
    let one = IsUnique-Reached h in
    after-poll IsUnique k now ts one (IsUnique-delete k ts one)
      (IsUnique-update k consume ts (λ q. refl) one)
