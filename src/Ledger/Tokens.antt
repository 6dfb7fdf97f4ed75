-- ===== src/Ledger/Tokens.antt =====
-- The open positions of a token in runs of `PaperDatabase`, app/paper/database.py.
use coinoskobi_dexbot.Common.{
  ◌≤◌, Bool, true, false, ◌&&◌, ◌≡◌, refl, List, [], ◌∷◌, length, arith, Bool-cases, Option-cases,
  inl, inr,
}
use coinoskobi_dexbot.Common.Text.{Text, text_eq_iff, lower}
use coinoskobi_dexbot.Ledger.Trade.{Trade}
use coinoskobi_dexbot.Ledger.Store.{
  Ledger, is_open, is_of, exists, select, same_token, clash, is_taken, has_clash,
}
use coinoskobi_dexbot.Ledger.Reach.{Run, empty_ledger, run-IsSingle}

-- The open rows of a token.
abbrev pub open_of : Text → Trade → Bool
open_of token trade = is_of token trade && is_open trade

of-clash :
    (token : Text) (t u : Trade)
    → open_of token t ≡ true
    → open_of token u ≡ true
    → clash t u ≡ true
unfolding is_of clash same_token
of-clash token t u h k = elim (Option-cases t.token) [
  | inl none_t ↦ ground arith
  | inr (a, some_t) ↦ elim (Option-cases u.token) [
    | inl none_u ↦ ground arith
    | inr (b, some_u) ↦ ground (
      arith,
      text_eq_iff (lower a) (lower token),
      text_eq_iff (lower b) (lower token),
      text_eq_iff (lower b) (lower a),
    )
  ]
]

no_other :
    (token : Text) (t : Trade) (ts : List Trade)
    → open_of token t ≡ true
    → is_taken t ts ≡ false
    → select (open_of token) ts ≡ []
unfolding select is_taken exists
no_other token t [] h n = refl
no_other token t (u ∷ ts) h n = elim (Bool-cases (open_of token u)) [
  | inl k ↦ absurd (ground (arith, of-clash token t u h k))
  | inr k ↦ rw k (no_other token t ts h (ground arith))
]

at_most_one :
    (token : Text) (ts : List Trade) → has_clash ts ≡ false → length (select (open_of token) ts) ≤ 1
unfolding select has_clash
at_most_one token [] v = omega arith
at_most_one token (t ∷ ts) v = elim (Bool-cases (open_of token t)) [
  | inl h ↦
      let rest : select (open_of token) ts ≡ [] = no_other token t ts h (ground arith) in
      rw (select, h, rest) (omega arith)
  | inr h ↦ rw h (at_most_one token ts (ground arith))
]

-- Whatever methods write to an empty ledger, in any order, no token has two open positions, in
-- whatever case its letters are given.
pub one_open_per_token :
    (l : Ledger) (token : Text)
    → Run empty_ledger l
    → length (select (λ trade. is_of token trade && is_open trade) l.trades) ≤ 1
unfolding has_clash
one_open_per_token l token run = at_most_one token l.trades (run-IsSingle run refl)
