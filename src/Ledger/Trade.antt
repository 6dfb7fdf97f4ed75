-- ===== src/Ledger/Trade.antt =====
-- A row of `paper_trades` (app/paper/schema.py): the columns that the code reads or writes by name.
-- Amounts are in units of 1e-9. A column that is NULL is `none`; a default of 0 reads as NULL does.
use coinoskobi_dexbot.Common.{ℕ, Option, none, some, []}
use coinoskobi_dexbot.Common.Int.{ℤ, pos}
use coinoskobi_dexbot.Common.Text.{Text, strip, upper}

pub record Trade : Type 0 where
  pub id : ℕ
  pub created_at : Option Text
  pub token : Option Text
  pub status : Option Text
  pub current_price : Option ℤ
  pub net_pnl : Option ℤ
  pub token_amount : Option ℤ
  pub paper_account_version : Option Text
  pub trade_policy : Option Text
  pub control_mode : Option Text
  pub trade_type : Option Text
  pub entry_amount_usdt : Option ℤ
  pub net_pnl_usdt : Option ℤ
  pub remaining_cost_basis_usdt : Option ℤ
  pub realized_gross_proceeds_usdt : Option ℤ
  pub realized_proceeds_usdt : Option ℤ
  pub realized_pnl_usdt : Option ℤ
  pub tp1_done : Option ℕ
  pub tp2_done : Option ℕ
  pub runner_active : Option ℕ
  pub math_state_json : Option Text

-- `str(x or "")`, `x or 0.0` and `int(x or 0)`
abbrev pub text_of : Option Text → Text
text_of none = []
text_of (some s) = s

abbrev pub amount_of : Option ℤ → ℤ
amount_of none = pos 0
amount_of (some a) = a

abbrev pub count_of : Option ℕ → ℕ
count_of none = 0
count_of (some n) = n

-- `str(x or "").strip().upper()`
unfoldable pub normalized : Option Text → Text
unfolding strip upper
normalized value = upper (strip (text_of value))
