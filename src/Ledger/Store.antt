-- ===== src/Ledger/Store.antt =====
-- The tables that `PaperDatabase` of app/paper/database.py keeps, with its reads and its plain
-- writes. Rows are in the order of their ids. Each method holds the lock, so it is one step.
use coinoskobi_dexbot.Common.{
  ℕ, Bool, true, false, ◌&&◌, ◌||◌, Option, none, some, List, [], ◌∷◌, ◌++◌, length, if◌then◌else◌,
  ltb, nat_eq,
}
use coinoskobi_dexbot.Common.Int.{ℤ}
use coinoskobi_dexbot.Common.Text.{Text, codes, text_eq, lower}
use coinoskobi_dexbot.Ledger.Trade.{Trade}
use coinoskobi_dexbot.Ledger.Control.{Control}

-- A row of `paper_realizations`, without its time stamp.
pub record Realization : Type 0 where
  pub position_id : ℕ
  pub stage : Text
  pub price : ℤ
  pub token_amount : ℤ
  pub close_fraction : ℤ
  pub gross_proceeds_usdt : ℤ
  pub net_proceeds_usdt : ℤ
  pub sold_cost_basis_usdt : ℤ
  pub realized_pnl_usdt : ℤ

-- An active row of `paper_runs`.
pub record PaperRun : Type 0 where
  pub starting_capital_usdt : ℤ
  pub start_trade_id : ℕ

pub record Ledger : Type 0 where
  pub trades : List Trade
  pub next_id : ℕ
  pub observations : List (ℕ × ℤ)
  pub realizations : List Realization
  pub control : Control
  pub active_runs : List PaperRun

-- `status='OPEN'`, which compares letter by letter, and `status='CLOSED'`.
abbrev pub has_status : Text → Trade → Bool
has_status s trade = elim trade.status [ none ↦ false | some status ↦ text_eq status s ]

abbrev pub open_text : Text
open_text = codes "OPEN"

abbrev pub closed_text : Text
closed_text = codes "CLOSED"

abbrev pub is_open : Trade → Bool
is_open trade = has_status open_text trade

-- `lower(token)=lower(?)`
unfoldable pub is_of : Text → Trade → Bool
unfolding lower
is_of token trade = elim trade.token [ none ↦ false | some t ↦ text_eq (lower t) (lower token) ]

-- The rows for which a condition holds.
unfoldable pub select : (Trade → Bool) → List Trade → List Trade
select p [] = []
select p (trade ∷ trades) = let rest = select p trades in if p trade then trade ∷ rest else rest

unfoldable pub exists : (Trade → Bool) → List Trade → Bool
exists p [] = false
exists p (trade ∷ trades) = p trade || exists p trades

-- `UPDATE ... WHERE`
unfoldable pub update_where : (Trade → Bool) → (Trade → Trade) → List Trade → List Trade
update_where p f [] = []
update_where p f (trade ∷ trades) = (if p trade then f trade else trade) ∷ update_where p f trades

-- `has_open_position` and `has_trade_history`
unfoldable pub has_open_position : Text → Ledger → Bool
unfolding exists is_of
has_open_position token l = exists (λ trade. is_of token trade && is_open trade) l.trades

unfoldable pub has_trade_history : Text → Ledger → Bool
unfolding exists is_of
has_trade_history token l = exists (is_of token) l.trades

-- `open_positions` and `closed_positions`
unfoldable pub open_positions : Ledger → List Trade
unfolding select
open_positions l = select is_open l.trades

unfoldable pub closed_positions : ℕ → Ledger → List Trade
unfolding select
closed_positions after_id l =
    select (λ trade. has_status closed_text trade && ltb after_id trade.id) l.trades

unfoldable pub same_token : Option Text → Option Text → Bool
unfolding lower
same_token none other = false
same_token (some token) none = false
same_token (some token) (some other) = text_eq (lower other) (lower token)

-- Two open rows of one token, which `UNIQUE_OPEN_INDEX` forbids.
unfoldable pub clash : Trade → Trade → Bool
unfolding same_token
clash trade other = is_open trade && is_open other && same_token trade.token other.token

-- Whether a row would break the index, and whether rows do.
unfoldable pub is_taken : Trade → List Trade → Bool
unfolding exists clash
is_taken trade trades = exists (clash trade) trades

unfoldable pub has_clash : List Trade → Bool
unfolding is_taken
has_clash [] = false
has_clash (trade ∷ trades) = is_taken trade trades || has_clash trades

-- `update_position`: nothing without an assignment; the index raises, and then nothing changes.
unfoldable pub update_position : ℕ → Option (Trade → Trade) → Ledger → Ledger × Bool
unfolding update_where has_clash
update_position trade_id none l = (l, true)
update_position trade_id (some values) l =
    let trades = update_where (λ trade. nat_eq trade.id trade_id) values l.trades in
    if has_clash trades then (l, false) else (record l { trades = trades }, true)

-- The `UPDATE` of `close_position`: the assignments, with the status.
unfoldable pub closed_with : (Trade → Trade) → Trade → Trade
closed_with values trade = record (values trade) { status = some closed_text }

abbrev pub is_open_id : ℕ → Trade → Bool
is_open_id trade_id trade = nat_eq trade.id trade_id && is_open trade

-- `close_position`, with `rowcount == 1`.
unfoldable pub close_position : ℕ → (Trade → Trade) → Ledger → Ledger × Bool
unfolding update_where closed_with select
close_position trade_id values l = (
  record l { trades = update_where (is_open_id trade_id) (closed_with values) l.trades },
  nat_eq (length (select (is_open_id trade_id) l.trades)) 1,
)

-- `record_price_observation`; the foreign key raises for a position that does not exist.
unfoldable pub record_price_observation : ℕ → ℤ → Ledger → Option Ledger
unfolding exists
record_price_observation position_id price l =
    if exists (λ trade. nat_eq trade.id position_id) l.trades
    then some (record l { observations = l.observations ++ (position_id, price) ∷ [] })
    else none

unfoldable pub prices_of : ℕ → List (ℕ × ℤ) → List ℤ
prices_of position_id [] = []
prices_of position_id (x ∷ xs) =
    let rest = prices_of position_id xs in if nat_eq x.0 position_id then x.1 ∷ rest else rest

-- `price_observations`
unfoldable pub price_observations : ℕ → Ledger → List ℤ
unfolding prices_of
price_observations position_id l = prices_of position_id l.observations
