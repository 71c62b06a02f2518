-- ===== src/Users/QrLogin/Spent.antt =====
-- What a change of the QR login table does to a token that has been used up.
use unified_communication_ba.Common.{
  ℕ, ◌≡◌, ◌≢◌, refl, Bool, true, false, ◌&&◌, ◌||◌, not, [], ◌∷◌, ◌++◌, Text, list_eq, nat_eq,
  list_beq_iff, any, select, update_where, arith,
}
use unified_communication_ba.Users.QrLogin.{
  QrLoginToken, Tokens, has_token, delete, approve, consume, is_consumed,
}

-- Every row that has the token is consumed.
abbrev pub all_consumed : Text → Tokens → Bool
all_consumed k [] = true
all_consumed k (q ∷ ts) = (not (has_token k q) || is_consumed q.status) && all_consumed k ts

-- The token is in the table, and every row that has it is consumed.
abbrev pub is_spent : Text → Tokens → Bool
is_spent k ts = any (has_token k) ts && all_consumed k ts

-- Other rows do not matter.
pub spent-delete :
    (k k' : Text) (ts : Tokens)
    → k ≢ k'
    → (any (has_token k) (delete k' ts) ≡ any (has_token k) ts)
      × (all_consumed k (delete k' ts) ≡ all_consumed k ts)
unfolding any select
spent-delete k k' [] n = ground arith
spent-delete k k' (q ∷ ts) n =
    ground (arith, spent-delete k k' ts n, list_beq_iff q.token k, list_beq_iff q.token k')

pub spent-approve :
    (k k' : Text) (u : ℕ) (ts : Tokens)
    → k ≢ k'
    → (any (has_token k) (update_where (has_token k') (approve u) ts) ≡ any (has_token k) ts)
      × (all_consumed k (update_where (has_token k') (approve u) ts) ≡ all_consumed k ts)
unfolding any update_where
spent-approve k k' u [] n = ground arith
spent-approve k k' u (q ∷ ts) n =
    ground (arith, spent-approve k k' u ts n, list_beq_iff q.token k, list_beq_iff q.token k')

pub any-consume :
    (k k' : Text) (ts : Tokens)
    → any (has_token k) (update_where (has_token k') consume ts) ≡ any (has_token k) ts
unfolding any update_where
any-consume k k' [] = refl
any-consume k k' (q ∷ ts) = ground (arith, any-consume k k' ts)

pub all_consumed-consume :
    (k k' : Text) (ts : Tokens)
    → all_consumed k ts ≡ true
    → all_consumed k (update_where (has_token k') consume ts) ≡ true
unfolding update_where
all_consumed-consume k k' [] h = refl
all_consumed-consume k k' (q ∷ ts) h = ground (arith, all_consumed-consume k k' ts)

pub consume-all :
    (k : Text) (ts : Tokens) → all_consumed k (update_where (has_token k) consume ts) ≡ true
unfolding update_where
consume-all k [] = refl
consume-all k (q ∷ ts) = ground (arith, consume-all k ts)

pub spent-append :
    (k : Text) (ts : Tokens) (q : QrLoginToken)
    → has_token k q ≡ false
    → (any (has_token k) (ts ++ q ∷ []) ≡ any (has_token k) ts)
      × (all_consumed k (ts ++ q ∷ []) ≡ all_consumed k ts)
unfolding any
spent-append k [] q h = ground arith
spent-append k (p ∷ ts) q h = ground (arith, spent-append k ts q h)
