-- ===== src/Ledger/Capital.antt =====
-- `paper_available_capital_usdt` of app/risk/paper_position_sizing.py.
use coinoskobi_dexbot.Common.{
  ℕ, Bool, true, false, ◌&&◌, Option, none, some, List, [], ◌∷◌, if◌then◌else◌, ltb,
}
use coinoskobi_dexbot.Common.Int.{ℤ, pos, ◌+ℤ◌, ◌-ℤ◌, ltb_ℤ}
use coinoskobi_dexbot.Common.Text.{Text, codes, text_eq, upper}
use coinoskobi_dexbot.Ledger.Trade.{Trade, text_of, amount_of}
use coinoskobi_dexbot.Ledger.Store.{PaperRun, Ledger, open_text, closed_text}

abbrev pub account_v2 : Text
account_v2 = codes "PAPER_10K_V2"

-- `PAPER_CAPITAL_USDT`, in units of 1e-9.
abbrev pub paper_capital_usdt : ℤ
paper_capital_usdt = pos 10000000000000

-- `_active_paper_run`: it raises when several runs are active.
pub data ActiveRun : Type 0 where
  no_run : ActiveRun
  one_run : PaperRun → ActiveRun
  too_many : ActiveRun

abbrev pub active_paper_run : List PaperRun → ActiveRun
active_paper_run [] = no_run
active_paper_run (run ∷ []) = one_run run
active_paper_run (run ∷ other ∷ rest) = too_many

-- `UPPER(COALESCE(status, ''))='OPEN'`
unfoldable pub reads_as : Text → Trade → Bool
unfolding upper
reads_as s trade = text_eq (upper (text_of trade.status)) s

-- `COALESCE(a, b, 0)`
abbrev pub coalesced : Option ℤ → Option ℤ → ℤ
coalesced none b = amount_of b
coalesced (some a) b = a

-- `WHERE paper_account_version='PAPER_10K_V2' AND id > ?`
abbrev pub counts_for : ℕ → Trade → Bool
counts_for start_trade_id trade = elim trade.paper_account_version [
  | none ↦ false
  | some version ↦ text_eq version account_v2 && ltb start_trade_id trade.id
]

abbrev pub amount_if : Bool → ℤ → ℤ
amount_if true a = a
amount_if false a = pos 0

-- `SUM`
unfoldable pub sum_of : (Trade → ℤ) → List Trade → ℤ
sum_of part [] = pos 0
sum_of part (t ∷ trades) = part t +ℤ sum_of part trades

-- What a row adds to each of the three sums of the query.
unfoldable pub closed_pnl : ℕ → Trade → ℤ
unfolding reads_as
closed_pnl start t =
    amount_if (counts_for start t && reads_as closed_text t) (coalesced t.net_pnl_usdt t.net_pnl)

unfoldable pub open_realized_pnl : ℕ → Trade → ℤ
unfolding reads_as
open_realized_pnl start t =
    amount_if (counts_for start t && reads_as open_text t) (amount_of t.realized_pnl_usdt)

unfoldable pub open_remaining_basis : ℕ → Trade → ℤ
unfolding reads_as
open_remaining_basis start t =
    amount_if (counts_for start t && reads_as open_text t)
      (coalesced t.remaining_cost_basis_usdt t.entry_amount_usdt)

abbrev pub not_negative : ℤ → ℤ
not_negative a = if ltb_ℤ a (pos 0) then pos 0 else a

-- The sum that the result is cut off from.
unfoldable pub balance : ℤ → ℕ → List Trade → ℤ
unfolding sum_of closed_pnl open_realized_pnl open_remaining_basis
balance starting start trades =
    not_negative starting
    +ℤ sum_of (closed_pnl start) trades
    +ℤ sum_of (open_realized_pnl start) trades
    -ℤ sum_of (open_remaining_basis start) trades

-- The run that counts: its capital and the last id before it.
abbrev pub run_basis : ℤ → ActiveRun → Option (ℤ × ℕ)
run_basis starting no_run = some (starting, 0)
run_basis starting (one_run run) = some (run.starting_capital_usdt, run.start_trade_id)
run_basis starting too_many = none

-- `paper_available_capital_usdt`
unfoldable pub paper_available_capital_usdt : ℤ → Ledger → Option ℤ
unfolding balance
paper_available_capital_usdt starting l =
    elim (run_basis starting (active_paper_run l.active_runs)) [
      | none ↦ none
      | some basis ↦ some (not_negative (balance basis.0 basis.1 l.trades))
    ]
