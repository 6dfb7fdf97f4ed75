-- ===== src/Ledger/Spending.antt =====
-- The capital of app/risk/paper_position_sizing.py under the inserts of app/paper/database.py.
use coinoskobi_dexbot.Common.{
  ℕ, ◌<◌, true, ◌≡◌, refl, sym, ◌∙◌, ap, some, List, [], ◌∷◌, ◌++◌, arith, inl, inr, some_eq,
  lt→ltb,
}
use mathlib.Core.Path.{subst}
use coinoskobi_dexbot.Common.Int.{
  ℤ, pos, ◌+ℤ◌, ◌-ℤ◌, add_parts, sub_parts, eq_of_parts, add_assoc, add_zero,
}
use coinoskobi_dexbot.Common.Text.{Text}
use coinoskobi_dexbot.Ledger.Trade.{Trade, amount_of}
use coinoskobi_dexbot.Ledger.Store.{Ledger, open_text}
use coinoskobi_dexbot.Ledger.Capital.{
  account_v2, paper_capital_usdt, active_paper_run, run_basis, reads_as, coalesced, counts_for,
  sum_of, closed_pnl, open_realized_pnl, open_remaining_basis, not_negative, balance,
  paper_available_capital_usdt,
}
use coinoskobi_dexbot.Ledger.Insert.{
  Inserted, inserted, is_funded, stored, appended, insert_if_below_open_limit,
}
use coinoskobi_dexbot.Ledger.Admitting.{Covers, admission_lem, axes_lem}

pub sum-append :
    (part : Trade → ℤ) (ts : List Trade) (u : Trade)
    → sum_of part (ts ++ u ∷ []) ≡ sum_of part ts +ℤ part u
unfolding sum_of
sum-append part [] u =
    eq_of_parts (part u +ℤ pos 0) (pos 0 +ℤ part u)
      (omega (arith, add_parts (part u) (pos 0), add_parts (pos 0) (part u)))
sum-append part (t ∷ ts) u =
    ap (λ x. part t +ℤ x) (sum-append part ts u)
    ∙ sym (add_assoc (part t) (sum_of part ts) (part u))

-- The balance with one more row.
balance-append :
    (starting : ℤ) (start : ℕ) (ts : List Trade) (u : Trade) (entry : ℤ)
    → closed_pnl start u ≡ pos 0
    → open_realized_pnl start u ≡ pos 0
    → open_remaining_basis start u ≡ entry
    → balance starting start (ts ++ u ∷ []) ≡ balance starting start ts -ℤ entry
unfolding balance
balance-append starting start ts u entry c r b =
    let s = not_negative starting in
    let cs = sum_of (closed_pnl start) ts in
    let rs = sum_of (open_realized_pnl start) ts in
    let bs = sum_of (open_remaining_basis start) ts in
    rw
      (
        sum-append (closed_pnl start) ts u,
        sum-append (open_realized_pnl start) ts u,
        sum-append (open_remaining_basis start) ts u,
        c,
        r,
        b,
        add_zero cs,
        add_zero rs,
      )
      (eq_of_parts (s +ℤ cs +ℤ rs -ℤ (bs +ℤ entry)) (s +ℤ cs +ℤ rs -ℤ bs -ℤ entry) (
        omega (
          arith,
          sub_parts (s +ℤ cs +ℤ rs) (bs +ℤ entry),
          add_parts bs entry,
          sub_parts (s +ℤ cs +ℤ rs -ℤ bs) entry,
          sub_parts (s +ℤ cs +ℤ rs) bs,
        )))

-- What a new open row adds.
module _ (start : ℕ) (u : Trade) where
  new_closed : u.status ≡ some open_text → closed_pnl start u ≡ pos 0
  unfolding closed_pnl
  new_closed e = rw (closed_pnl, reads_as, e) (ground arith)

  new_realized :
      u.status ≡ some open_text
      → counts_for start u ≡ true
      → open_realized_pnl start u ≡ amount_of u.realized_pnl_usdt
  unfolding open_realized_pnl
  new_realized e c = rw (open_realized_pnl, reads_as, e, c) refl

  new_basis :
      u.status ≡ some open_text
      → counts_for start u ≡ true
      → open_remaining_basis start u ≡ coalesced u.remaining_cost_basis_usdt u.entry_amount_usdt
  unfolding open_remaining_basis
  new_basis e c = rw (open_remaining_basis, reads_as, e, c) refl

  new_counts : u.paper_account_version ≡ some account_v2 → start < u.id → counts_for start u ≡ true
  new_counts e lt = rw (counts_for, e, lt→ltb start u.id lt) refl

funded_trade :
    (trade : Trade)
    → trade.paper_account_version ≡ some account_v2
    → trade.status ≡ some open_text
    → is_funded trade ≡ true
unfolding is_funded
funded_trade trade version status = rw (is_funded, version, status) refl

available_run :
    (l : Ledger) (starting : ℤ) (start : ℕ)
    → run_basis paper_capital_usdt (active_paper_run l.active_runs) ≡ some (starting, start)
    → paper_available_capital_usdt paper_capital_usdt l
      ≡ some (not_negative (balance starting start l.trades))
unfolding paper_available_capital_usdt
available_run l starting start run = rw (paper_available_capital_usdt, run) refl

-- The funded account pays for what it opens: if `insert_if_below_open_limit` admits an open trade of
-- the account, with its entry as its basis and nothing realized, then the free capital covers the
-- entry up to 1e-9, and the balance of the active run falls by just the entry.
pub insert_spends :
    (now : Text) (trade : Trade) (limit : ℤ) (l l' : Ledger) (starting : ℤ) (start : ℕ)
    → trade.paper_account_version ≡ some account_v2
    → trade.status ≡ some open_text
    → coalesced trade.remaining_cost_basis_usdt trade.entry_amount_usdt
      ≡ amount_of trade.entry_amount_usdt
    → amount_of trade.realized_pnl_usdt ≡ pos 0
    → run_basis paper_capital_usdt (active_paper_run l.active_runs) ≡ some (starting, start)
    → start < l.next_id
    → insert_if_below_open_limit now trade limit l ≡ (l', inserted)
    → Covers (not_negative (balance starting start l.trades)) (amount_of trade.entry_amount_usdt)
      × (balance starting start l'.trades
          ≡ balance starting start l.trades -ℤ amount_of trade.entry_amount_usdt)
insert_spends now trade limit l l' starting start version status basis fresh run lt done =
    elim (admission_lem now trade limit l) [
      | inr (bad, same, not_in) ↦ absurd (not_in (ap (λ (r : Ledger × Inserted). r.1) done))
      | inl (row, v, at) ↦
          let (mode, type, axes) = axes_lem trade row v.axes in
          let u = stored now l.next_id row in
          let to : l' ≡ appended now row l = ap (λ (r : Ledger × Inserted). r.0) (sym done ∙ at) in
          let status' : u.status ≡ some open_text = ap (λ (t : Trade). t.status) axes ∙ status in
          let version' : u.paper_account_version ≡ some account_v2 =
            ap (λ (t : Trade). t.paper_account_version) axes ∙ version in
          let counts = new_counts start u version' lt in
          (
            elim v.funded [
              | inl not_funded ↦ absurd (ground (arith, funded_trade trade version status))
              | inr (free, found, covers) ↦
                  let e = some_eq (sym found ∙ available_run l starting start run) in
                  subst (λ x. Covers x (amount_of trade.entry_amount_usdt)) e covers
            ],
            ap (λ (m : Ledger). balance starting start m.trades) to
                ∙ balance-append starting start l.trades u (amount_of trade.entry_amount_usdt)
                    (new_closed start u status')
                    (new_realized start u status' counts
                      ∙ ap (λ (t : Trade). amount_of t.realized_pnl_usdt) axes
                      ∙ fresh)
                    (new_basis start u status' counts
                      ∙ ap
                          (λ (t : Trade). coalesced t.remaining_cost_basis_usdt t.entry_amount_usdt)
                          axes
                      ∙ basis),
          )
    ]
