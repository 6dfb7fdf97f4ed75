-- ===== src/Ledger/Reach.antt =====
-- Runs of the methods of `PaperDatabase`, app/paper/database.py.
use coinoskobi_dexbot.Common.{
  ℕ, Bool, true, false, ◌≡◌, refl, ◌∙◌, Option, none, some, List, [], ◌∷◌, nat_eq, arith, if_cases,
}
use coinoskobi_dexbot.Common.Int.{ℤ}
use coinoskobi_dexbot.Common.Text.{Text}
use coinoskobi_dexbot.Ledger.Trade.{Trade, amount_of}
use coinoskobi_dexbot.Ledger.Contract.{
  Canonical, canonical, invalid_control_mode, invalid_trade_type, canonicalize_trade_axes,
}
use coinoskobi_dexbot.Ledger.Control.{Control}
use coinoskobi_dexbot.Ledger.Store.{
  Ledger, PaperRun, exists, select, clash, is_taken, has_clash, update_where, is_open_id,
  closed_with, update_position, close_position, record_price_observation,
}
use coinoskobi_dexbot.Ledger.Capital.{paper_capital_usdt, paper_available_capital_usdt}
use coinoskobi_dexbot.Ledger.Insert.{
  Inserted, inserted, refused, token_required, bad_control_mode, bad_trade_type, runs_invalid,
  integrity_error, is_beyond, is_funded, after_capital, stored, insert_canonical, insert, caught,
  insert_funded, insert_below, insert_if_below_open_limit,
}
use coinoskobi_dexbot.Ledger.Partial.{
  Stage, tp1, tp2, Supplied, is_turned_down, realized, realize_row, apply_partial_realization,
}
use coinoskobi_dexbot.Ledger.OneOpen.{Closes, append-clash, update-clash}

-- No two open rows have a token in common.
abbrev pub IsSingle : Ledger → Type 0
IsSingle l = has_clash l.trades ≡ false

-- A stored row clashes as the row does.
taken-stored :
    (now : Text) (id : ℕ) (trade : Trade) (ts : List Trade)
    → is_taken (stored now id trade) ts ≡ is_taken trade ts
unfolding is_taken exists clash
taken-stored now id trade [] = refl
taken-stored now id trade (t ∷ ts) = ground (arith, taken-stored now id trade ts)

canonical-IsSingle :
    (now : Text) (c : Canonical) (l : Ledger) → IsSingle l → IsSingle (insert_canonical now c l).0
unfolding insert_canonical
canonical-IsSingle now invalid_control_mode l v = v
canonical-IsSingle now invalid_trade_type l v = v
canonical-IsSingle now (canonical trade) l v =
    if_cases (λ (r : Ledger × Inserted). IsSingle r.0) (is_taken trade l.trades) (λ _. v)
      (λ free.
        append-clash (stored now l.next_id trade) l.trades v
          (taken-stored now l.next_id trade l.trades ∙ free))

caught-IsSingle :
    (l : Ledger) (r : Ledger × Inserted) → IsSingle l → IsSingle r.0 → IsSingle (caught l r).0
caught-IsSingle l (l', inserted) v w = w
caught-IsSingle l (l', refused) v w = w
caught-IsSingle l (l', token_required) v w = w
caught-IsSingle l (l', bad_control_mode) v w = w
caught-IsSingle l (l', bad_trade_type) v w = w
caught-IsSingle l (l', runs_invalid) v w = w
caught-IsSingle l (l', integrity_error) v w = v

capital-IsSingle :
    (trade : Trade) (l : Ledger) (plain : Ledger × Inserted) (free : Option ℤ)
    → IsSingle l
    → IsSingle plain.0
    → IsSingle (after_capital trade l plain free).0
capital-IsSingle trade l plain none v w = v
capital-IsSingle trade l plain (some free) v w =
    if_cases (λ (r : Ledger × Inserted). IsSingle r.0)
      (is_beyond (amount_of trade.entry_amount_usdt) free) (λ _. v) (λ _. w)

funded-IsSingle :
    (now : Text) (trade : Trade) (l : Ledger) → IsSingle l → IsSingle (insert_funded now trade l).0
unfolding insert_funded insert
funded-IsSingle now trade l v =
    let plain =
      caught-IsSingle l (insert now trade l) v
        (canonical-IsSingle now (canonicalize_trade_axes trade) l v) in
    if_cases (λ (r : Ledger × Inserted). IsSingle r.0) (is_funded trade)
      (λ _.
        capital-IsSingle trade l (caught l (insert now trade l))
          (paper_available_capital_usdt paper_capital_usdt l) v plain)
      (λ _. plain)

admitted-IsSingle :
    (now : Text) (trade : Trade) (limit : ℤ) (l : Ledger)
    → IsSingle l
    → IsSingle (insert_if_below_open_limit now trade limit l).0
unfolding insert_if_below_open_limit insert_below
admitted-IsSingle now trade limit l v = ground (arith, funded-IsSingle now trade l)

closed_with-Closes : (values : Trade → Trade) → Closes (closed_with values)
unfolding closed_with
closed_with-Closes values t opened = cc

realized-Closes :
    (times : ℤ → ℤ → ℤ) (same : ℤ → ℤ → Bool) (stage : Stage) (price : ℤ) (r : Supplied)
    (state : Text)
    → Closes (realized times same stage price r state)
unfolding realized
realized-Closes times same tp1 price r state t opened = (opened, refl)
realized-Closes times same tp2 price r state t opened = (opened, refl)

-- One call of a method that writes, or a change of the mode. What an update assigns is the
-- environment's.
pub data Step (l : Ledger) : Ledger → Type 0 where
  inserting : (now : Text) (trade : Trade) → Step l (insert now trade l).0
  admitting :
      (now : Text) (trade : Trade) (limit : ℤ)
      → Step l (insert_if_below_open_limit now trade limit l).0
  updating :
      (trade_id : ℕ) (values : Option (Trade → Trade))
      → Step l (update_position trade_id values l).0
  closing : (trade_id : ℕ) (values : Trade → Trade) → Step l (close_position trade_id values l).0
  observing :
      (position_id : ℕ) (price : ℤ) (l' : Ledger)
      → record_price_observation position_id price l ≡ some l'
      → Step l l'
  realizing :
      (times : ℤ → ℤ → ℤ) (same : ℤ → ℤ → Bool) (trade_id : ℕ) (stage : Option Stage) (price : ℤ)
      (realization : Option Supplied) (state : Text)
      → Step l (apply_partial_realization times same trade_id stage price realization state l).0
  switching : (control : Control) → Step l (record l { control = control })
  running : (runs : List PaperRun) → Step l (record l { active_runs = runs })

pub data Run (l : Ledger) : Ledger → Type 0 where
  start : Run l l
  then_step : {m n : Ledger} → Run l m → Step m n → Run l n

abbrev pub empty_ledger : Ledger
empty_ledger = record {
  trades = [];
  next_id = 1;
  observations = [];
  realizations = [];
  control = none;
  active_runs = [];
}

observed-IsSingle :
    (position_id : ℕ) (price : ℤ) (l l' : Ledger)
    → record_price_observation position_id price l ≡ some l'
    → IsSingle l
    → IsSingle l'
unfolding record_price_observation
observed-IsSingle position_id price l l' e v = ground arith

rows-IsSingle :
    (times : ℤ → ℤ → ℤ) (same : ℤ → ℤ → Bool) (trade_id : ℕ) (stage : Stage) (price : ℤ)
    (r : Supplied) (state : Text) (rows : List Trade) (l : Ledger)
    → IsSingle l
    → IsSingle (realize_row times same trade_id stage price r state rows l).0
unfolding realize_row
rows-IsSingle times same trade_id stage price r state [] l v = v
rows-IsSingle times same trade_id stage price r state (row ∷ rows) l v =
    if_cases (λ (x : Ledger × Bool). IsSingle x.0) (is_turned_down times same stage price r row)
      (λ _. v)
      (λ _.
        update-clash (is_open_id trade_id) (realized times same stage price r state) l.trades
          (realized-Closes times same stage price r state) v)

realizing-IsSingle :
    (times : ℤ → ℤ → ℤ) (same : ℤ → ℤ → Bool) (trade_id : ℕ) (stage : Option Stage) (price : ℤ)
    (r : Option Supplied) (state : Text) (l : Ledger)
    → IsSingle l
    → IsSingle (apply_partial_realization times same trade_id stage price r state l).0
unfolding apply_partial_realization
realizing-IsSingle times same trade_id none price r state l v = v
realizing-IsSingle times same trade_id (some stage) price none state l v = v
realizing-IsSingle times same trade_id (some stage) price (some r) state l v =
    let rows =
      rows-IsSingle times same trade_id stage price r state (select (is_open_id trade_id) l.trades)
        l v in
    if_cases (λ (x : Ledger × Bool). IsSingle x.0) _ (λ _. v) (λ _. rows)

updating-IsSingle :
    (trade_id : ℕ) (values : Option (Trade → Trade)) (l : Ledger)
    → IsSingle l
    → IsSingle (update_position trade_id values l).0
unfolding update_position
updating-IsSingle trade_id none l v = v
updating-IsSingle trade_id (some values) l v =
    if_cases (λ (r : Ledger × Bool). IsSingle r.0)
      (has_clash (update_where (λ trade. nat_eq trade.id trade_id) values l.trades))
      {x = (l, false)}
      {y = (
        record l { trades = update_where (λ trade. nat_eq trade.id trade_id) values l.trades },
        true,
      )}
      (λ _. v) (λ free. free)

step-IsSingle : {l m : Ledger} → Step l m → IsSingle l → IsSingle m
unfolding insert close_position
step-IsSingle {l} (inserting now trade) v =
    canonical-IsSingle now (canonicalize_trade_axes trade) l v
step-IsSingle {l} (admitting now trade limit) v = admitted-IsSingle now trade limit l v
step-IsSingle {l} (updating trade_id values) v = updating-IsSingle trade_id values l v
step-IsSingle {l} (closing trade_id values) v =
    update-clash (is_open_id trade_id) (closed_with values) l.trades (closed_with-Closes values) v
step-IsSingle {l} (observing position_id price l' e) v =
    observed-IsSingle position_id price l l' e v
step-IsSingle {l} (realizing times same trade_id stage price r state) v =
    realizing-IsSingle times same trade_id stage price r state l v
step-IsSingle (switching control) v = v
step-IsSingle (running runs) v = v

pub run-IsSingle : {l m : Ledger} → Run l m → IsSingle l → IsSingle m
run-IsSingle start v = v
run-IsSingle (then_step run step) v = step-IsSingle step (run-IsSingle run v)
