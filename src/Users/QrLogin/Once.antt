-- ===== src/Users/QrLogin/Once.antt =====
-- The QR login views (apps/users/views.py): a token after it has given credentials.
use unified_communication_ba.Common.{
  ℕ, ◌≡◌, ◌≢◌, refl, ap, inl, inr, Bool, true, false, ◌&&◌, Option, none, some, List, [], ◌∷◌, Text,
  nonempty, list_eq, nat_eq, list_beq_iff, first, any, In, arith, Option-cases, Bool-cases,
  first-In, any-In,
}
use unified_communication_ba.Users.QrLogin.{
  QrLoginStatus, pending, approved, consumed, QrLoginToken, already_consumed, credentials, Tokens,
  has_token, is_pending, opened, initiate, confirm_row, confirm, poll_live, is_consumed, poll_row,
  poll, QrRequest, initiating, confirming, polling, handle, serve,
}
use unified_communication_ba.Users.QrLogin.Spent.{
  all_consumed, is_spent, spent-delete, spent-approve, any-consume, all_consumed-consume,
  consume-all, spent-append,
}

-- The first row of a spent token is consumed.
spent-first :
    (k : Text) (ts : Tokens)
    → is_spent k ts ≡ true
    → (q : QrLoginToken) × (first (has_token k) ts ≡ some q) × (is_consumed q.status ≡ true)
unfolding any first
spent-first k [] h = absurd (ground arith)
spent-first k (q ∷ ts) h = elim (Bool-cases (has_token k q)) [
  | inl e ↦ (q, ground arith, ground arith)
  | inr e ↦ let (p, f, g) = spent-first k ts (ground arith) in (p, ground arith, g)
]

all_consumed-In :
    (k : Text) (q : QrLoginToken) (ts : Tokens)
    → all_consumed k ts ≡ true
    → In q ts
    → has_token k q ≡ true
    → is_consumed q.status ≡ true
all_consumed-In k q [] h i e = absurd i
all_consumed-In k q (p ∷ ts) h (inl f) e =
    ground (arith, ap (λ (r : QrLoginToken). is_consumed r.status) f, ap (has_token k) f)
all_consumed-In k q (p ∷ ts) h (inr i) e = all_consumed-In k q ts (ground arith) i e

pending-consumed : (s : QrLoginStatus) → is_pending s ≡ true → is_consumed s ≡ false
pending-consumed pending h = refl
pending-consumed approved h = cc
pending-consumed consumed h = cc

-- The row that is confirmed has another token than a spent one.
spent-pending :
    (k k' : Text) (ts : Tokens) (q : QrLoginToken)
    → is_spent k ts ≡ true
    → first (λ q. has_token k' q && is_pending q.status) ts ≡ some q
    → k ≢ k'
spent-pending k k' ts q h f e =
    let (i, g) = first-In (λ q. has_token k' q && is_pending q.status) q ts f in
    let c = all_consumed-In k q ts (ground arith) i (ground (arith, ap (λ t. has_token t q) e)) in
    ground (arith, pending-consumed q.status)

spent-confirm :
    (k : Text) (u : ℕ) (k' : Text) (now : ℕ) (ts : Tokens)
    → is_spent k ts ≡ true
    → is_spent k (confirm u k' now ts).1 ≡ true
unfolding confirm confirm_row
spent-confirm k u k' now ts h =
    elim (Option-cases (first (λ q. has_token k' q && is_pending q.status) ts)) [
      | inl e ↦ rw e (ground arith)
      | inr (q, e) ↦
          let n = spent-pending k k' ts q h e in
          rw e (ground (arith, spent-delete k k' ts n, spent-approve k k' u ts n))
    ]

spent-initiate :
    (k k' : Text) (now : ℕ) (ts : Tokens)
    → is_spent k ts ≡ true
    → is_spent k (initiate k' now ts).1 ≡ true
unfolding initiate
spent-initiate k k' now ts h = elim (Bool-cases (any (has_token k') ts)) [
  | inl e ↦ rw e h
  | inr e ↦ rw e (
      ground (
        arith,
        spent-append k ts (opened k' now),
        list_beq_iff k' k,
        λ (f : k' ≡ k). ap (λ t. any (has_token t) ts) f,
      ))
]

spent-live :
    (k k' : Text) (s : QrLoginStatus) (u : Option ℕ) (ts : Tokens)
    → is_spent k ts ≡ true
    → is_spent k (poll_live k' ts s u).1 ≡ true
unfolding poll_live
spent-live k k' pending u ts h = h
spent-live k k' consumed u ts h = h
spent-live k k' approved none ts h = h
spent-live k k' approved (some u) ts h =
    ground (arith, any-consume k k' ts, all_consumed-consume k k' ts)

-- The poll of a spent token is refused, and changes nothing.
pub spent-refused :
    (k : Text) (now : ℕ) (ts : Tokens)
    → nonempty k ≡ true
    → is_spent k ts ≡ true
    → poll k now ts ≡ (already_consumed, ts)
unfolding poll poll_row
spent-refused k now ts n h = let (q, e, f) = spent-first k ts h in rw n (rw e (rw f refl))

-- A row that is not consumed has another token than a spent one.
spent-other :
    (k k' : Text) (ts : Tokens) (q : QrLoginToken)
    → is_spent k ts ≡ true
    → first (has_token k') ts ≡ some q
    → is_consumed q.status ≡ false
    → k ≢ k'
spent-other k k' ts q h e c f =
    let (i, g) = first-In (has_token k') q ts e in
    let all : all_consumed k ts ≡ true = ground arith in
    ground (arith, ap (λ t. has_token t q) f, all_consumed-In k q ts all i)

spent-poll :
    (k k' : Text) (now : ℕ) (ts : Tokens)
    → is_spent k ts ≡ true
    → is_spent k (poll k' now ts).1 ≡ true
unfolding poll poll_row
spent-poll k k' now ts h = elim (Option-cases (first (has_token k') ts)) [
  | inl e ↦ rw e (ground arith)
  | inr (q, e) ↦ rw e (
      ground (
        arith,
        λ (c : is_consumed q.status ≡ false). spent-delete k k' ts (spent-other k k' ts q h e c),
        spent-live k k' q.status q.user ts h,
      ))
]

pub spent-handle :
    (k : Text) (r : QrRequest) (ts : Tokens)
    → is_spent k ts ≡ true
    → is_spent k (handle r ts).1 ≡ true
unfolding handle
spent-handle k (initiating k' now) ts h = spent-initiate k k' now ts h
spent-handle k (confirming u k' now) ts h = spent-confirm k u k' now ts h
spent-handle k (polling k' now) ts h = spent-poll k k' now ts h

spent-serve :
    (k : Text) (rs : List QrRequest) (ts : Tokens)
    → is_spent k ts ≡ true
    → is_spent k (serve rs ts) ≡ true
unfolding serve
spent-serve k [] ts h = h
spent-serve k (r ∷ rs) ts h = spent-serve k rs (handle r ts).1 (spent-handle k r ts h)

live-credentials :
    (k : Text) (s : QrLoginStatus) (v : Option ℕ) (ts : Tokens) (u : ℕ)
    → any (has_token k) ts ≡ true
    → (poll_live k ts s v).0 ≡ credentials u
    → is_spent k (poll_live k ts s v).1 ≡ true
unfolding poll_live
live-credentials k pending v ts u a h = cc
live-credentials k consumed v ts u a h = cc
live-credentials k approved none ts u a h = cc
live-credentials k approved (some v) ts u a h = ground (arith, any-consume k k ts, consume-all k ts)

first-any :
    (p : QrLoginToken → Bool) (q : QrLoginToken) (ts : Tokens)
    → first p ts ≡ some q
    → any p ts ≡ true
first-any p q ts h = let (i, e) = first-In p q ts h in any-In p q ts i e

-- A poll that gives credentials leaves the token spent.
credentials-spent :
    (k : Text) (now : ℕ) (ts : Tokens) (u : ℕ)
    → (poll k now ts).0 ≡ credentials u
    → (nonempty k ≡ true) × (is_spent k (poll k now ts).1 ≡ true)
unfolding poll poll_row poll_live
credentials-spent k now ts u = elim (Bool-cases (nonempty k)) [
  | inl n ↦ elim (Option-cases (first (has_token k) ts)) [
    | inl e ↦ rw n (rw e (λ h. absurd (ground arith)))
    | inr (q, e) ↦ rw n (
        rw e (λ h.
          ground (arith, live-credentials k q.status q.user ts u, first-any (has_token k) q ts e)))
  ]
  | inr n ↦ rw n (λ h. absurd (ground arith))
]

-- Once a poll of a token has given credentials, every later poll of it is refused as already consumed
-- and changes nothing, whatever requests come between.
pub poll-once :
    (k : Text) (now : ℕ) (ts : Tokens) (u : ℕ) (rs : List QrRequest) (later : ℕ)
    → (poll k now ts).0 ≡ credentials u
    → poll k later (serve rs (poll k now ts).1) ≡ (already_consumed, serve rs (poll k now ts).1)
poll-once k now ts u rs later h =
    let (n, s) = credentials-spent k now ts u h in
    spent-refused k later (serve rs (poll k now ts).1) n (spent-serve k rs (poll k now ts).1 s)
