-- ===== src/Ledger/Insert.antt =====
-- The inserts of `PaperDatabase`, app/paper/database.py. A transaction that is rolled back leaves
-- the ledger as it was.
use coinoskobi_dexbot.Common.{
  ℕ, suc, max, Bool, true, not, ◌&&◌, ◌||◌, Option, none, some, [], ◌∷◌, ◌++◌, length,
  if◌then◌else◌, leb,
}
use coinoskobi_dexbot.Common.Int.{ℤ, pos, pos_part, ◌+ℤ◌, ltb_ℤ, leb_ℤ}
use coinoskobi_dexbot.Common.Text.{Text, codes, text_eq, upper}
use coinoskobi_dexbot.Row.{truthy}
use coinoskobi_dexbot.Ledger.Trade.{Trade, text_of, amount_of}
use coinoskobi_dexbot.Ledger.Contract.{
  Canonical, canonical, invalid_control_mode, invalid_trade_type, canonicalize_trade_axes,
}
use coinoskobi_dexbot.Ledger.Control.{get_control_mode_from_connection, is_auto}
use coinoskobi_dexbot.Ledger.Store.{Ledger, open_text, has_open_position, open_positions, is_taken}
use coinoskobi_dexbot.Ledger.Capital.{account_v2, paper_capital_usdt, paper_available_capital_usdt}

-- How an insert ends: with `True`, with `False`, or with an error.
pub data Inserted : Type 0 where
  inserted refused : Inserted
  token_required bad_control_mode bad_trade_type runs_invalid integrity_error : Inserted

-- The row that is stored: its id is new, and a missing time is the reading of the clock.
abbrev pub stored : Text → ℕ → Trade → Trade
stored now id trade = record trade {
  id = id;
  created_at = if truthy trade.created_at then trade.created_at else some now;
}

abbrev pub appended : Text → Trade → Ledger → Ledger
appended now trade l = record l {
  trades = l.trades ++ stored now l.next_id trade ∷ [];
  next_id = suc l.next_id;
}

-- `INSERT` of a row with its axes.
unfoldable pub insert_canonical : Text → Canonical → Ledger → Ledger × Inserted
unfolding is_taken
insert_canonical now invalid_control_mode l = (l, bad_control_mode)
insert_canonical now invalid_trade_type l = (l, bad_trade_type)
insert_canonical now (canonical trade) l =
    if is_taken trade l.trades then (l, integrity_error) else (appended now trade l, inserted)

-- `insert`
unfoldable pub insert : Text → Trade → Ledger → Ledger × Inserted
unfolding insert_canonical canonicalize_trade_axes
insert now trade l = insert_canonical now (canonicalize_trade_axes trade) l

-- `str(x or "AUTO").upper() == "AUTO"`
unfoldable pub asks_for_auto : Trade → Bool
unfolding upper
asks_for_auto trade =
    if truthy trade.control_mode
    then text_eq (upper (text_of trade.control_mode)) (codes "AUTO")
    else true

-- An open trade of the account whose capital is checked.
unfoldable pub is_funded : Trade → Bool
unfolding upper
is_funded trade =
    text_eq (upper (text_of trade.paper_account_version)) account_v2
    && text_eq (upper (text_of trade.status)) open_text

-- `requested_entry <= 0 or requested_entry > free_capital + 1e-9`
abbrev pub is_beyond : ℤ → ℤ → Bool
is_beyond requested free = leb_ℤ requested (pos 0) || ltb_ℤ (free +ℤ pos 1) requested

-- What an `except sqlite3.IntegrityError` makes of an insert.
abbrev pub caught : Ledger → Ledger × Inserted → Ledger × Inserted
caught l (l', integrity_error) = (l, refused)
caught l (l', result) = (l', result)

-- The check of the free capital, before what the insert does.
abbrev pub after_capital : Trade → Ledger → Ledger × Inserted → Option ℤ → Ledger × Inserted
after_capital trade l plain none = (l, runs_invalid)
after_capital trade l plain (some free) =
    if is_beyond (amount_of trade.entry_amount_usdt) free then (l, refused) else plain

-- The transaction from the capital on.
unfoldable pub insert_funded : Text → Trade → Ledger → Ledger × Inserted
unfolding insert is_funded paper_available_capital_usdt
insert_funded now trade l =
    let plain = caught l (insert now trade l) in
    if is_funded trade
    then after_capital trade l plain (paper_available_capital_usdt paper_capital_usdt l)
    else plain

-- `insert_if_below_open_limit` for a token.
unfoldable pub insert_below : Text → Text → Trade → ℤ → Ledger → Ledger × Inserted
unfolding get_control_mode_from_connection asks_for_auto has_open_position open_positions
    insert_funded
insert_below now token trade max_open_positions l =
    if not (is_auto (get_control_mode_from_connection l.control)) && asks_for_auto trade
    then (l, refused)
    else if has_open_position token l
    then (l, refused)
    else if leb (max 1 (pos_part max_open_positions)) (length (open_positions l))
    then (l, refused)
    else insert_funded now trade l

-- `insert_if_below_open_limit`
unfoldable pub insert_if_below_open_limit : Text → Trade → ℤ → Ledger → Ledger × Inserted
unfolding insert_below
insert_if_below_open_limit now trade max_open_positions l =
    if truthy trade.token
    then insert_below now (text_of trade.token) trade max_open_positions l
    else (l, token_required)

-- `insert_if_no_open_position`
unfoldable pub insert_if_no_open_position : Text → Trade → Ledger → Ledger × Inserted
unfolding insert_if_below_open_limit
insert_if_no_open_position now trade l = insert_if_below_open_limit now trade (pos 2147483647) l
