-- ===== src/Ledger/Partial.antt =====
-- `apply_partial_realization` of app/paper/database.py. Amounts, prices and fractions are in units
-- of 1e-9; the product of two floats and `math.isclose` are parameters.
use coinoskobi_dexbot.Common.{
  ℕ, Bool, true, false, not, ◌&&◌, ◌||◌, Option, none, some, List, [], ◌∷◌, ◌++◌, if◌then◌else◌,
  nat_eq,
}
use coinoskobi_dexbot.Common.Int.{ℤ, pos, ◌+ℤ◌, ◌-ℤ◌, ltb_ℤ, leb_ℤ}
use coinoskobi_dexbot.Common.Text.{Text, codes}
use coinoskobi_dexbot.Ledger.Trade.{Trade, amount_of, count_of}
use coinoskobi_dexbot.Ledger.Store.{Realization, Ledger, is_open_id, select, update_where}
use coinoskobi_dexbot.Ledger.Capital.{coalesced}

pub data Stage : Type 0 where
  tp1 tp2 : Stage

abbrev pub stage_name : Stage → Text
stage_name tp1 = codes "TP1"
stage_name tp2 = codes "TP2"

-- The numbers of `realization`.
pub record Supplied : Type 0 where
  pub fraction : ℤ
  pub sold_tokens : ℤ
  pub remaining_tokens : ℤ
  pub gross_proceeds_usdt : ℤ
  pub net_proceeds_usdt : ℤ
  pub sold_cost_basis_usdt : ℤ
  pub remaining_cost_basis_usdt : ℤ
  pub realized_pnl_usdt : ℤ

abbrev pub one : ℤ
one = pos 1000000000

abbrev pub done_of : Stage → Trade → ℕ
done_of tp1 trade = count_of trade.tp1_done
done_of tp2 trade = count_of trade.tp2_done

abbrev pub mark_done : Stage → Trade → Trade
mark_done tp1 trade = record trade {
  tp1_done = some 1;
  runner_active = some (count_of trade.runner_active);
}
mark_done tp2 trade = record trade { tp2_done = some 1; runner_active = some 1 }

-- `current_basis`
abbrev pub basis_of : Trade → ℤ
basis_of trade = coalesced trade.remaining_cost_basis_usdt trade.entry_amount_usdt

module _ (times : ℤ → ℤ → ℤ) (same : ℤ → ℤ → Bool) where
  -- The expected values.
  abbrev pub expected_sold : Supplied → Trade → ℤ
  expected_sold r row = times (amount_of row.token_amount) r.fraction

  abbrev pub expected_remaining : Supplied → Trade → ℤ
  expected_remaining r row = amount_of row.token_amount -ℤ expected_sold r row

  abbrev pub expected_sold_basis : Supplied → Trade → ℤ
  expected_sold_basis r row = times (basis_of row) r.fraction

  abbrev pub expected_remaining_basis : Supplied → Trade → ℤ
  expected_remaining_basis r row = basis_of row -ℤ expected_sold_basis r row

  abbrev pub expected_gross : ℤ → Supplied → Trade → ℤ
  expected_gross price r row = times (expected_sold r row) price

  abbrev pub expected_pnl : Supplied → Trade → ℤ
  expected_pnl r row = r.net_proceeds_usdt -ℤ expected_sold_basis r row

  unfoldable pub conservation_ok : ℤ → Supplied → Trade → Bool
  conservation_ok price r row =
      leb_ℤ r.sold_tokens (amount_of row.token_amount)
      && leb_ℤ (pos 0) (expected_remaining r row)
      && same r.sold_tokens (expected_sold r row)
      && same r.remaining_tokens (expected_remaining r row)
      && same r.sold_cost_basis_usdt (expected_sold_basis r row)
      && same r.remaining_cost_basis_usdt (expected_remaining_basis r row)
      && same r.gross_proceeds_usdt (expected_gross price r row)
      && same r.realized_pnl_usdt (expected_pnl r row)

  -- The `UPDATE`.
  unfoldable pub realized : Stage → ℤ → Supplied → Text → Trade → Trade
  realized stage price r math_state_json row = mark_done stage (record row {
    token_amount = some (expected_remaining r row);
    remaining_cost_basis_usdt = some (expected_remaining_basis r row);
    realized_gross_proceeds_usdt =
        some (amount_of row.realized_gross_proceeds_usdt +ℤ expected_gross price r row);
    realized_proceeds_usdt = some (amount_of row.realized_proceeds_usdt +ℤ r.net_proceeds_usdt);
    realized_pnl_usdt = some (amount_of row.realized_pnl_usdt +ℤ expected_pnl r row);
    math_state_json = some math_state_json;
    current_price = some price;
  })

  abbrev pub realization_row : ℕ → Stage → ℤ → Supplied → Trade → Realization
  realization_row trade_id stage price r row = record {
    position_id = trade_id;
    stage = stage_name stage;
    price = price;
    token_amount = expected_sold r row;
    close_fraction = r.fraction;
    gross_proceeds_usdt = expected_gross price r row;
    net_proceeds_usdt = r.net_proceeds_usdt;
    sold_cost_basis_usdt = expected_sold_basis r row;
    realized_pnl_usdt = expected_pnl r row;
  }

  -- What keeps a selected row from being realized.
  unfoldable pub is_turned_down : Stage → ℤ → Supplied → Trade → Bool
  unfolding conservation_ok
  is_turned_down stage price r row =
      not (nat_eq (done_of stage row) 0)
      || leb_ℤ (amount_of row.token_amount) (pos 0)
      || ltb_ℤ (basis_of row) (pos 0)
      || not (conservation_ok price r row)

  -- The transaction on the rows that the `SELECT` finds.
  unfoldable pub realize_row : ℕ → Stage → ℤ → Supplied → Text → List Trade → Ledger → Ledger × Bool
  unfolding is_turned_down realized update_where
  realize_row trade_id stage price r math_state_json [] l = (l, false)
  realize_row trade_id stage price r math_state_json (row ∷ rows) l =
      if is_turned_down stage price r row then (l, false) else (
        record l {
          trades =
              update_where (is_open_id trade_id) (realized stage price r math_state_json) l.trades;
          realizations = l.realizations ++ realization_row trade_id stage price r row ∷ [];
        },
        true,
      )

  -- `apply_partial_realization`; `none` is a stage that is not known, and a realization that is no
  -- dict of finite numbers.
  unfoldable pub apply_partial_realization :
      ℕ → Option Stage → ℤ → Option Supplied → Text → Ledger → Ledger × Bool
  unfolding realize_row select
  apply_partial_realization trade_id none price realization math_state_json l = (l, false)
  apply_partial_realization trade_id (some stage) price none math_state_json l = (l, false)
  apply_partial_realization trade_id (some stage) price (some r) math_state_json l =
      if leb_ℤ price (pos 0) || leb_ℤ r.fraction (pos 0) || ltb_ℤ one r.fraction
      then (l, false)
      else realize_row trade_id stage price r math_state_json
          (select (is_open_id trade_id) l.trades) l
