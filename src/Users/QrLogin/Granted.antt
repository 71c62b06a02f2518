-- ===== src/Users/QrLogin/Granted.antt =====
-- The QR login views (apps/users/views.py): who gets credentials.
use unified_communication_ba.Common.{
  ℕ, ◌≡◌, ◌<◌, ◌+◌, refl, ap, inl, inr, ◌&&◌, not, Option, none, some, List, [], ◌∷◌, Text,
  nonempty, list_eq, nat_eq, list_beq_iff, first, any, update_where, In, In-append, In-select,
  arith, Option-cases, Bool-cases, first-In,
}
use unified_communication_ba.Users.QrLogin.{
  QrLoginStatus, pending, approved, consumed, QrLoginToken, credentials, Tokens, is_expired,
  has_token, is_pending, delete, opened, initiate, approve, consume, confirm_row, confirm,
  poll_live, poll_row, poll, QrRequest, initiating, confirming, polling, handle,
}
use unified_communication_ba.Users.QrLogin.Unique.{
  Reached, start, served, In-update, IsUnique, IsUnique-Reached, after-poll,
}

-- The user confirmed the token before the time.
pub record ConfirmedBefore (rs : List QrRequest) (token : Text) (user end : ℕ) : Type 0 where
  pub at : ℕ
  pub confirmed : In (confirming user token at) rs
  pub in_time : at < end

-- The token was opened five minutes before it ends, and, if it is approved, its user confirmed it in time.
record Explained (rs : List QrRequest) (q : QrLoginToken) : Type 0 where
  at : ℕ
  initiated : In (initiating q.token at) rs
  ends : q.expires_at ≡ at + 300
  by_user :
      q.status ≡ approved → (u : ℕ) → q.user ≡ some u → ConfirmedBefore rs q.token u q.expires_at

weaken :
    (r : QrRequest) {rs : List QrRequest} {q : QrLoginToken} → Explained rs q → Explained (r ∷ rs) q
weaken r h = record {
  at = h.at;
  initiated = inr h.initiated;
  ends = h.ends;
  by_user = λ a u e.
      let c = h.by_user a u e in
      record { at = c.at; confirmed = inr c.confirmed; in_time = c.in_time };
}

abbrev AllExplained : List QrRequest → Tokens → Type 0
AllExplained rs ts = (q : QrLoginToken) → In q ts → Explained rs q

Explained-delete :
    {rs : List QrRequest} (k : Text) (ts : Tokens)
    → AllExplained rs ts
    → AllExplained rs (delete k ts)
Explained-delete k ts h q i = h q ((In-select (λ q. not (has_token k q)) q ts).0 i).0

Explained-initiate :
    {rs : List QrRequest} (k : Text) (now : ℕ) (ts : Tokens)
    → AllExplained rs ts
    → AllExplained (initiating k now ∷ rs) (initiate k now ts).1
unfolding initiate
Explained-initiate k now ts h = elim (Bool-cases (any (has_token k) ts)) [
  | inl e ↦ rw e (λ q i. weaken (initiating k now) (h q i))
  | inr e ↦ rw e (λ q i. elim ((In-append q ts (opened k now ∷ [])).0 i) [
    | inl j ↦ weaken (initiating k now) (h q j)
    | inr (inl f) ↦ rw f record {
      at = now;
      initiated = inl refl;
      ends = refl;
      by_user = λ a u e. absurd (ground arith);
    }
    | inr (inr f) ↦ absurd f
  ])
]

Explained-approve :
    {rs : List QrRequest} (u : ℕ) (k : Text) (now : ℕ) (a : QrLoginToken)
    → a.token ≡ k
    → now < a.expires_at
    → Explained rs a
    → Explained (confirming u k now ∷ rs) (approve u a)
Explained-approve {rs} u k now a e l h = record {
  at = h.at;
  initiated = inr h.initiated;
  ends = h.ends;
  by_user = λ s v f.
      let g : u ≡ v = ground arith in
      record { at = now; confirmed = inl (rw (← g) (rw e refl)); in_time = l };
}

Explained-confirm :
    {rs : List QrRequest} (u : ℕ) (k : Text) (now : ℕ) (ts : Tokens)
    → IsUnique ts
    → AllExplained rs ts
    → AllExplained (confirming u k now ∷ rs) (confirm u k now ts).1
unfolding confirm confirm_row
Explained-confirm {rs} u k now ts one h =
    let r = confirming u k now in
    let same : AllExplained (r ∷ rs) ts = λ q i. weaken r (h q i) in
    elim (Bool-cases (nonempty k)) [
      | inl n ↦ elim (Option-cases (first (λ q. has_token k q && is_pending q.status) ts)) [
        | inl e ↦ rw n (rw e same)
        | inr (q, e) ↦
            let (i, c) = first-In (λ q. has_token k q && is_pending q.status) q ts e in
            elim (Bool-cases (is_expired now q)) [
              | inl x ↦ rw n (rw e (rw x (Explained-delete k ts same)))
              | inr x ↦ rw n (
                  rw e (
                    rw x (λ b j. elim (In-update (has_token k) (approve u) b ts j) [
                      | inl (j', p) ↦ same b j'
                      | inr (a, j', p, f) ↦
                          let e' =
                            one a q j' i
                              (ground (arith, list_beq_iff a.token k, list_beq_iff q.token k)) in
                          rw f (
                            Explained-approve u k now a ((list_beq_iff a.token k).0 p)
                              (ground (arith, ap (λ (r : QrLoginToken). r.expires_at) e')) (h a j'))
                    ])))
            ]
      ]
      | inr n ↦ rw n same
    ]

Explained-consume :
    {rs : List QrRequest} (k : Text) (ts : Tokens)
    → AllExplained rs ts
    → AllExplained rs (update_where (has_token k) consume ts)
Explained-consume k ts h b i = elim (In-update (has_token k) consume b ts i) [
  | inl (j, p) ↦ h b j
  | inr (a, j, p, f) ↦ rw f record {
    at = (h a j).at;
    initiated = (h a j).initiated;
    ends = (h a j).ends;
    by_user = λ s. absurd (ground arith);
  }
]

Explained-Reached : {rs : List QrRequest} {ts : Tokens} → Reached rs ts → AllExplained rs ts
unfolding handle
Explained-Reached start = λ q i. absurd i
Explained-Reached (served (initiating k now) {rs} {ts} h) =
    Explained-initiate k now ts (Explained-Reached h)
Explained-Reached (served (confirming u k now) {rs} {ts} h) =
    Explained-confirm u k now ts (IsUnique-Reached h) (Explained-Reached h)
Explained-Reached (served (polling k now) {rs} {ts} h) =
    let all : AllExplained (polling k now ∷ rs) ts =
      λ q i. weaken (polling k now) (Explained-Reached h q i) in
    after-poll (AllExplained (polling k now ∷ rs)) k now ts all (Explained-delete k ts all)
      (Explained-consume k ts all)

live-credentials :
    (k : Text) (s : QrLoginStatus) (v : Option ℕ) (ts : Tokens) (u : ℕ)
    → (poll_live k ts s v).0 ≡ credentials u
    → (s ≡ approved) × (v ≡ some u)
unfolding poll_live
live-credentials k pending v ts u h = cc
live-credentials k consumed v ts u h = cc
live-credentials k approved none ts u h = cc
live-credentials k approved (some v) ts u h = (refl, cc)

-- Credentials come from a row that is approved for the user and has not expired.
poll-credentials :
    (k : Text) (now : ℕ) (ts : Tokens) (u : ℕ)
    → (poll k now ts).0 ≡ credentials u
    → (q : QrLoginToken) × In q ts
      × (q.token ≡ k)
      × (q.status ≡ approved)
      × (q.user ≡ some u)
      × (now < q.expires_at)
unfolding poll poll_row
poll-credentials k now ts u = elim (Bool-cases (nonempty k)) [
  | inl n ↦ elim (Option-cases (first (has_token k) ts)) [
    | inl e ↦ rw n (rw e (λ h. absurd (ground arith)))
    | inr (q, e) ↦
        let (i, c) = first-In (has_token k) q ts e in
        rw n (
          rw e (λ h.
            let l = live-credentials k q.status q.user ts u in
            (
              q,
              i,
              (list_beq_iff q.token k).0 c,
              ground (arith, l),
              ground (arith, l),
              ground (arith, l),
            )))
  ]
  | inr n ↦ rw n (λ h. absurd (ground arith))
]

-- In a table that requests lead to from the empty one, a poll at some time gives the credentials of a
-- user only where the token was opened, that time is before five minutes after the opening, and that
-- user confirmed the token, also at a time before those five minutes ended.
pub poll-confirmed :
    (rs : List QrRequest) (ts : Tokens) (k : Text) (now u : ℕ)
    → Reached rs ts
    → (poll k now ts).0 ≡ credentials u
    → (at : ℕ) × In (initiating k at) rs × (now < at + 300) × ConfirmedBefore rs k u (at + 300)
poll-confirmed rs ts k now u r h =
    let (q, i, e, s, f, l) = poll-credentials k now ts u h in
    let x = Explained-Reached r q i in
    (x.at, rw (← e) x.initiated, ground (arith, x.ends), rw (← e) (rw (← x.ends) (x.by_user s u f)))
