-- ===== src/Ledger/Realizing.antt =====
-- What a partial realization of app/paper/database.py does to a position and to the capital.
use coinoskobi_dexbot.Common.{
  ℕ, Bool, true, false, ◌≡◌, refl, sym, ◌∙◌, ap, List, [], ◌∷◌, ◌++◌, map, arith, Bool-cases,
  Option-cases, inl, inr,
}
use coinoskobi_dexbot.Common.Int.{
  ℤ, pos, ◌+ℤ◌, ◌-ℤ◌, add_parts, sub_parts, eq_of_parts, add_assoc, parts_of_eq,
}
use coinoskobi_dexbot.Common.Text.{Text, text_eq_iff}
use coinoskobi_dexbot.Ledger.Trade.{Trade, amount_of}
use coinoskobi_dexbot.Ledger.Store.{
  Ledger, open_text, closed_text, is_open, is_open_id, select, update_where,
}
use coinoskobi_dexbot.Ledger.Capital.{
  reads_as, counts_for, sum_of, closed_pnl, open_realized_pnl, open_remaining_basis, not_negative,
  balance,
}
use coinoskobi_dexbot.Ledger.Partial.{
  Stage, tp1, tp2, Supplied, basis_of, is_turned_down, realized, realization_row, realize_row,
}

tail_of : {t row : Trade} {ts : List Trade} → t ∷ ts ≡ row ∷ [] → (t ≡ row) × (ts ≡ [])
tail_of e = (cc, cc)

pub update_none :
    (p : Trade → Bool) (f : Trade → Trade) (ts : List Trade)
    → select p ts ≡ []
    → update_where p f ts ≡ ts
unfolding select update_where
update_none p f [] e = refl
update_none p f (t ∷ ts) e = elim (Bool-cases (p t)) [
  | inl hit ↦ ground arith
  | inr miss ↦ rw miss (ap (◌∷◌ t) (update_none p f ts (ground arith)))
]

swap_ends : (a s b : ℤ) → a +ℤ s +ℤ b ≡ b +ℤ s +ℤ a
swap_ends a s b =
    eq_of_parts (a +ℤ s +ℤ b) (b +ℤ s +ℤ a)
      (omega (arith, add_parts (a +ℤ s) b, add_parts a s, add_parts (b +ℤ s) a, add_parts b s))

-- A sum after the update of the one selected row.
pub sum-update :
    (part : Trade → ℤ) (p : Trade → Bool) (f : Trade → Trade) (row : Trade) (ts : List Trade)
    → select p ts ≡ row ∷ []
    → sum_of part (update_where p f ts) +ℤ part row ≡ sum_of part ts +ℤ part (f row)
unfolding select update_where sum_of
sum-update part p f row [] e = cc
sum-update part p f row (t ∷ ts) e = elim (Bool-cases (p t)) [
  | inl hit ↦
      let split : (t ≡ row) × (select p ts ≡ []) = tail_of (ground arith) in
      rw (hit, update_none p f ts split.1, split.0)
        (swap_ends (part (f row)) (sum_of part ts) (part row))
  | inr miss ↦ rw miss (
      add_assoc (part t) (sum_of part (update_where p f ts)) (part row)
      ∙ ap (λ x. part t +ℤ x) (sum-update part p f row ts (ground arith))
      ∙ sym (add_assoc (part t) (sum_of part ts) (part (f row))))
]

-- The selected rows after the update.
pub select-update :
    (p : Trade → Bool) (f : Trade → Trade) (ts : List Trade)
    → ((t : Trade) → p (f t) ≡ p t)
    → select p (update_where p f ts) ≡ map f (select p ts)
unfolding select update_where
select-update p f [] h = refl
select-update p f (t ∷ ts) h = ground (arith, select-update p f ts h, h t)

module _ (times : ℤ → ℤ → ℤ) (same : ℤ → ℤ → Bool) where
  -- An accepted call has found an open row that it does not turn down.
  pub accepted :
      (trade_id : ℕ) (stage : Stage) (price : ℤ) (r : Supplied) (state : Text) (row : Trade)
      (rows : List Trade) (l l' : Ledger)
      → realize_row times same trade_id stage price r state (row ∷ rows) l ≡ (l', true)
      → (is_turned_down times same stage price r row ≡ false)
        × (l'.trades
            ≡ update_where (is_open_id trade_id) (realized times same stage price r state) l.trades)
        × (l'.realizations
            ≡ l.realizations ++ realization_row times same trade_id stage price r row ∷ [])
  unfolding realize_row
  accepted trade_id stage price r state row rows l l' e =
      elim (Bool-cases (is_turned_down times same stage price r row)) [
        | inl down ↦ ground arith
        | inr fine ↦ ground arith
      ]

  pub realized-open_id :
      (trade_id : ℕ) (stage : Stage) (price : ℤ) (r : Supplied) (state : Text) (t : Trade)
      → is_open_id trade_id (realized times same stage price r state t) ≡ is_open_id trade_id t
  unfolding realized
  realized-open_id trade_id tp1 price r state t = refl
  realized-open_id trade_id tp2 price r state t = refl

is_open-reads :
    (t : Trade)
    → is_open t ≡ true
    → (reads_as open_text t ≡ true) × (reads_as closed_text t ≡ false)
unfolding reads_as
is_open-reads t h = elim (Option-cases t.status) [
  | inl none_s ↦ ground arith
  | inr (s, some_s) ↦
      let e : s ≡ open_text = (text_eq_iff s open_text).0 (ground arith) in
      (rw (reads_as, some_s, e) refl, rw (reads_as, some_s, e) refl)
]

-- The sums behind an update, put together.
sums_shift :
    (s cs rs bs cs' rs' bs' P pnl B sold net : ℤ)
    → cs' +ℤ pos 0 ≡ cs +ℤ pos 0
    → rs' +ℤ P ≡ rs +ℤ (P +ℤ pnl)
    → bs' +ℤ B ≡ bs +ℤ (B -ℤ sold)
    → pnl ≡ net -ℤ sold
    → s +ℤ cs' +ℤ rs' -ℤ bs' ≡ s +ℤ cs +ℤ rs -ℤ bs +ℤ net
sums_shift s cs rs bs cs' rs' bs' P pnl B sold net ec er eb en =
    let fc = parts_of_eq ec in
    let fr = parts_of_eq er in
    let fb = parts_of_eq eb in
    let fn = parts_of_eq en in
    eq_of_parts (s +ℤ cs' +ℤ rs' -ℤ bs') (s +ℤ cs +ℤ rs -ℤ bs +ℤ net) (
      omega (
        arith,
        fc.0,
        fc.1,
        fr.0,
        fr.1,
        fb.0,
        fb.1,
        fn.0,
        fn.1,
        add_parts cs' (pos 0),
        add_parts cs (pos 0),
        add_parts rs' P,
        add_parts rs (P +ℤ pnl),
        add_parts P pnl,
        add_parts bs' B,
        add_parts bs (B -ℤ sold),
        sub_parts B sold,
        sub_parts net sold,
        sub_parts (s +ℤ cs' +ℤ rs') bs',
        add_parts (s +ℤ cs') rs',
        add_parts s cs',
        add_parts (s +ℤ cs +ℤ rs -ℤ bs) net,
        sub_parts (s +ℤ cs +ℤ rs) bs,
        add_parts (s +ℤ cs) rs,
        add_parts s cs,
      ))

-- The balance after the update of the one selected row, from what the row adds before and behind.
pub balance-update :
    (starting : ℤ) (start : ℕ) (p : Trade → Bool) (f : Trade → Trade) (row : Trade)
    (ts : List Trade) (pnl sold net : ℤ)
    → select p ts ≡ row ∷ []
    → closed_pnl start row ≡ pos 0
    → closed_pnl start (f row) ≡ pos 0
    → open_realized_pnl start (f row) ≡ open_realized_pnl start row +ℤ pnl
    → open_remaining_basis start (f row) ≡ open_remaining_basis start row -ℤ sold
    → pnl ≡ net -ℤ sold
    → balance starting start (update_where p f ts) ≡ balance starting start ts +ℤ net
unfolding balance
balance-update starting start p f row ts pnl sold net found c c' r b n =
    let s = not_negative starting in
    let us = update_where p f ts in
    let cs = sum_of (closed_pnl start) ts in
    let rs = sum_of (open_realized_pnl start) ts in
    let bs = sum_of (open_remaining_basis start) ts in
    let cs' = sum_of (closed_pnl start) us in
    let rs' = sum_of (open_realized_pnl start) us in
    let bs' = sum_of (open_remaining_basis start) us in
    let P = open_realized_pnl start row in
    let B = open_remaining_basis start row in
    let ec : cs' +ℤ pos 0 ≡ cs +ℤ pos 0 =
      rw (sym c)
        (sum-update (closed_pnl start) p f row ts found ∙ ap (λ x. cs +ℤ x) (c' ∙ sym c)) in
    let er : rs' +ℤ P ≡ rs +ℤ (P +ℤ pnl) =
      sum-update (open_realized_pnl start) p f row ts found ∙ ap (λ x. rs +ℤ x) r in
    let eb : bs' +ℤ B ≡ bs +ℤ (B -ℤ sold) =
      sum-update (open_remaining_basis start) p f row ts found ∙ ap (λ x. bs +ℤ x) b in
    sums_shift s cs rs bs cs' rs' bs' P pnl B sold net ec er eb n

-- What an open row of the account adds.
module _ (start : ℕ) (t : Trade) where
  pub open_closed : is_open t ≡ true → closed_pnl start t ≡ pos 0
  unfolding closed_pnl
  open_closed h = let reads = is_open-reads t h in ground (arith, reads.1)

  pub open_realized :
      is_open t ≡ true
      → counts_for start t ≡ true
      → open_realized_pnl start t ≡ amount_of t.realized_pnl_usdt
  unfolding open_realized_pnl
  open_realized h c = let reads = is_open-reads t h in rw (open_realized_pnl, reads.0, c) refl

  pub open_basis :
      is_open t ≡ true → counts_for start t ≡ true → open_remaining_basis start t ≡ basis_of t
  unfolding open_remaining_basis
  open_basis h c = let reads = is_open-reads t h in rw (open_remaining_basis, reads.0, c) refl
