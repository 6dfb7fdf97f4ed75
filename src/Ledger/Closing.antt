-- ===== src/Ledger/Closing.antt =====
-- `close_position` of app/paper/database.py.
use coinoskobi_dexbot.Common.{ℕ, false, not, ◌&&◌, ◌≡◌, refl, List, [], ◌∷◌, length, nat_eq, arith}
use coinoskobi_dexbot.Ledger.Trade.{Trade}
use coinoskobi_dexbot.Ledger.Store.{
  Ledger, is_open, is_open_id, select, update_where, closed_with, close_position, open_positions,
}
use coinoskobi_dexbot.Ledger.Realizing.{update_none}

closed_with-open : (values : Trade → Trade) (t : Trade) → is_open (closed_with values t) ≡ false
unfolding closed_with
closed_with-open values t = refl

select-closed :
    (trade_id : ℕ) (values : Trade → Trade) (ts : List Trade)
    → select (is_open_id trade_id) (update_where (is_open_id trade_id) (closed_with values) ts) ≡ []
unfolding select update_where closed_with
select-closed trade_id values [] = refl
select-closed trade_id values (t ∷ ts) = ground (arith, select-closed trade_id values ts)

open-closed :
    (trade_id : ℕ) (values : Trade → Trade) (ts : List Trade)
    → select is_open (update_where (is_open_id trade_id) (closed_with values) ts)
      ≡ select (λ t. is_open t && not (nat_eq t.id trade_id)) ts
unfolding select update_where closed_with
open-closed trade_id values [] = refl
open-closed trade_id values (t ∷ ts) = ground (arith, open-closed trade_id values ts)

-- Closing a position takes the rows of its id out of the open ones and leaves the others; it reports
-- a success exactly if one was open, and a second close, with whatever values, changes nothing and
-- reports none.
pub close_position_lem :
    (trade_id : ℕ) (values again : Trade → Trade) (l : Ledger)
    → let (l', closed) = close_position trade_id values l in
      (open_positions l' ≡ select (λ t. is_open t && not (nat_eq t.id trade_id)) l.trades)
      × (closed ≡ nat_eq (length (select (is_open_id trade_id) l.trades)) 1)
      × (close_position trade_id again l' ≡ (l', false))
unfolding close_position open_positions
close_position_lem trade_id values again l =
    let none_left = select-closed trade_id values l.trades in
    let same =
      update_none (is_open_id trade_id) (closed_with again)
        (update_where (is_open_id trade_id) (closed_with values) l.trades) none_left in
    (open-closed trade_id values l.trades, refl, rw (close_position, none_left, same) refl)
