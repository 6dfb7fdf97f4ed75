-- ===== src/Tests/Ledger.antt =====
-- The ledger of app/paper/database.py on small inputs.
use coinoskobi_dexbot.Common.{
  ◌≤◌, Bool, true, false, not, ◌&&◌, ◌≡◌, refl, none, some, [], ◌∷◌, ◌++◌, length, nat_eq, arith,
  ◌*◌, ◌/◌,
}
use coinoskobi_dexbot.Common.Int.{ℤ, pos, pos_part, leb_ℤ, ◌+ℤ◌, ◌-ℤ◌}
use coinoskobi_dexbot.Common.Text.{Text, text_Eq, codes}
use coinoskobi_dexbot.Ledger.Trade.{Trade}
use coinoskobi_dexbot.Ledger.Control.{get_control_mode_from_connection}
use coinoskobi_dexbot.Ledger.Contract.{
  manual, mode_name, canonical, canonicalize_trade_axes, lifecycle_trade_type,
}
use coinoskobi_dexbot.Ledger.Store.{
  Ledger, is_open, is_of, is_open_id, select, close_position, open_positions,
}
use coinoskobi_dexbot.Ledger.Capital.{not_negative, balance, paper_capital_usdt}
use coinoskobi_dexbot.Ledger.Insert.{
  inserted, refused, appended, stored, insert_if_below_open_limit,
}
use coinoskobi_dexbot.Ledger.Partial.{
  tp1, Supplied, realized, realization_row, apply_partial_realization,
}
use coinoskobi_dexbot.Ledger.Reach.{Run, start, then_step, admitting, empty_ledger}
use coinoskobi_dexbot.Ledger.Tokens.{one_open_per_token}
use coinoskobi_dexbot.Ledger.Admitting.{Covers, Outcome, admission_lem}
use coinoskobi_dexbot.Ledger.Spending.{insert_spends}
use coinoskobi_dexbot.Ledger.Proceeds.{realization_pays}
use coinoskobi_dexbot.Ledger.Closing.{close_position_lem}
use coinoskobi_dexbot.Ledger.Axes.{canonicalize_lem}
use coinoskobi_dexbot.Ledger.Manual.{manual_entries}

-- An entry of 400 USDT for 8 tokens.
abbrev entry : Trade
entry = record {
  id = 0;
  created_at = none;
  token = some (codes "0xAb");
  status = some (codes "OPEN");
  current_price = none;
  net_pnl = none;
  token_amount = some (pos 8000000000);
  paper_account_version = some (codes "PAPER_10K_V2");
  trade_policy = some (codes "VUR_KAC");
  control_mode = none;
  trade_type = none;
  entry_amount_usdt = some (pos 400000000000);
  net_pnl_usdt = none;
  remaining_cost_basis_usdt = some (pos 400000000000);
  realized_gross_proceeds_usdt = none;
  realized_proceeds_usdt = none;
  realized_pnl_usdt = none;
  tp1_done = none;
  tp2_done = none;
  runner_active = none;
  math_state_json = none;
}

abbrev now : Text
now = codes "t"

-- The entry as it is stored.
abbrev entry_row : Trade
entry_row = record entry { control_mode = some (codes "AUTO"); trade_type = some (codes "VUR_KAC") }

entry_routed : canonicalize_trade_axes entry ≡ canonical entry_row
unfolding canonicalize_trade_axes
entry_routed = refl

canonicalize_example :
    (canonicalize_trade_axes entry_row ≡ canonical entry_row)
    × (lifecycle_trade_type entry_row ≡ lifecycle_trade_type entry)
canonicalize_example = canonicalize_lem entry entry_row entry_routed

abbrev one_trade : Ledger
one_trade = appended now entry_row empty_ledger

entry_admitted : insert_if_below_open_limit now entry (pos 3) empty_ledger ≡ (one_trade, inserted)
unfolding insert_if_below_open_limit ◌+ℤ◌ ◌-ℤ◌
entry_admitted = refl

admission_example :
    Outcome now entry
      (pos 3)
      empty_ledger
      (insert_if_below_open_limit now entry (pos 3) empty_ledger)
admission_example = admission_lem now entry (pos 3) empty_ledger

-- The token has an open position, whatever the case of its letters.
entry_again :
    insert_if_below_open_limit now (record entry { token = some (codes "0xaB") }) (pos 3) one_trade
    ≡ (one_trade, refused)
unfolding insert_if_below_open_limit ◌+ℤ◌ ◌-ℤ◌
entry_again = refl

insert_spends_example :
    Covers (not_negative (balance paper_capital_usdt 0 [])) (pos 400000000000)
    × (balance paper_capital_usdt 0 one_trade.trades
        ≡ balance paper_capital_usdt 0 [] -ℤ pos 400000000000)
insert_spends_example =
    insert_spends now entry (pos 3) empty_ledger one_trade paper_capital_usdt 0 refl refl refl refl
      refl (omega arith) entry_admitted

one_run : Run empty_ledger (insert_if_below_open_limit now entry (pos 3) empty_ledger).0
one_run = then_step start (admitting now entry (pos 3))

one_open_example :
    length (
      select
        (λ trade. is_of (codes "0xab") trade && is_open trade)
        (insert_if_below_open_limit now entry (pos 3) empty_ledger).0.trades)
    ≤ 1
one_open_example =
    one_open_per_token (insert_if_below_open_limit now entry (pos 3) empty_ledger).0 (codes "0xab")
      one_run

close_position_example :
    let (l', closed) = close_position 1 (λ t. t) one_trade in
    (open_positions l' ≡ select (λ t. is_open t && not (nat_eq t.id 1)) one_trade.trades)
    × (closed ≡ nat_eq (length (select (is_open_id 1) one_trade.trades)) 1)
    × (close_position 1 (λ t. t) l' ≡ (l', false))
close_position_example = close_position_lem 1 (λ t. t) (λ t. t) one_trade

-- In the MANUAL mode an entry of the panel.
abbrev by_hand : Ledger
by_hand = record empty_ledger { control = some (some (codes "MANUAL")) }

abbrev panel_entry : Trade
panel_entry = record entry { control_mode = some (codes "manual"); trade_policy = none }

abbrev panel_row : Trade
panel_row = record panel_entry { control_mode = some (codes "MANUAL") }

panel_admitted :
    insert_if_below_open_limit now panel_entry (pos 3) by_hand
    ≡ (appended now panel_row by_hand, inserted)
unfolding insert_if_below_open_limit ◌+ℤ◌ ◌-ℤ◌
panel_admitted = refl

manual_entries_example :
    (row : Trade) × (appended now panel_row by_hand ≡ appended now row by_hand)
    × (row.control_mode ≡ some (mode_name manual))
unfolding get_control_mode_from_connection
manual_entries_example =
    manual_entries now panel_entry (pos 3) by_hand (appended now panel_row by_hand) refl refl
      panel_admitted

-- Blanks around AUTO get past the test of the mode, and are gone in the ledger.
abbrev padded : Trade
padded = record entry { control_mode = some (codes " auto") }

padded_auto :
    insert_if_below_open_limit now padded (pos 3) by_hand
    ≡ (appended now entry_row by_hand, inserted)
unfolding insert_if_below_open_limit ◌+ℤ◌ ◌-ℤ◌
padded_auto = refl

-- Half of the tokens are sold at 60, exact products and comparisons.
abbrev times : ℤ → ℤ → ℤ
times a b = pos (pos_part a * pos_part b / 1000000000)

abbrev same : ℤ → ℤ → Bool
same a b = leb_ℤ a b && leb_ℤ b a

abbrev half : Supplied
half = record {
  fraction = pos 500000000;
  sold_tokens = pos 4000000000;
  remaining_tokens = pos 4000000000;
  gross_proceeds_usdt = pos 240000000000;
  net_proceeds_usdt = pos 239000000000;
  sold_cost_basis_usdt = pos 200000000000;
  remaining_cost_basis_usdt = pos 200000000000;
  realized_pnl_usdt = pos 39000000000;
}

abbrev open_row : Trade
open_row = stored now 1 entry_row

abbrev half_sold : Ledger
half_sold =
    (apply_partial_realization times same 1 (some tp1) (pos 60000000000) (some half) (codes "{}")
      one_trade).0

half_accepted :
    apply_partial_realization times same 1
      (some tp1)
      (pos 60000000000)
      (some half)
      (codes "{}")
      one_trade
    ≡ (half_sold, true)
unfolding apply_partial_realization ◌-ℤ◌
half_accepted = refl

one_open_row : select (is_open_id 1) one_trade.trades ≡ open_row ∷ []
unfolding select
one_open_row = refl

realization_pays_example :
    (select (is_open_id 1) half_sold.trades
      ≡ realized times same tp1 (pos 60000000000) half (codes "{}") open_row ∷ [])
    × (half_sold.realizations
        ≡ [] ++ realization_row times same 1 tp1 (pos 60000000000) half open_row ∷ [])
    × (balance paper_capital_usdt 0 half_sold.trades
        ≡ balance paper_capital_usdt 0 one_trade.trades +ℤ pos 239000000000)
    × ((p : ℤ) (again : Supplied) (s : Text)
        → apply_partial_realization times same 1 (some tp1) p (some again) s half_sold
          ≡ (half_sold, false))
realization_pays_example =
    realization_pays times same 1 tp1 (pos 60000000000) half (codes "{}") open_row one_trade
      half_sold paper_capital_usdt 0 one_open_row refl half_accepted
