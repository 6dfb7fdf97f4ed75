-- ===== src/Ledger/Proceeds.antt =====
-- Accepted calls of `apply_partial_realization`, app/paper/database.py.
use coinoskobi_dexbot.Common.{
  ℕ, Bool, true, false, ◌||◌, ◌≡◌, refl, sym, ◌∙◌, ap, some, List, [], ◌∷◌, ◌++◌, map,
  if◌then◌else◌, arith, Bool-cases, inl, inr,
}
use coinoskobi_dexbot.Common.Int.{ℤ, pos, ◌+ℤ◌, ◌-ℤ◌, ltb_ℤ, leb_ℤ}
use coinoskobi_dexbot.Common.Text.{Text}
use coinoskobi_dexbot.Ledger.Trade.{Trade, amount_of}
use coinoskobi_dexbot.Ledger.Store.{Ledger, is_open, is_open_id, select}
use coinoskobi_dexbot.Ledger.Capital.{counts_for, balance}
use coinoskobi_dexbot.Ledger.Partial.{
  Stage, tp1, tp2, done_of, Supplied, one, basis_of, expected_sold_basis, expected_pnl,
  is_turned_down, realized, realization_row, realize_row, apply_partial_realization,
}
use coinoskobi_dexbot.Ledger.Realizing.{
  select-update, accepted, realized-open_id, balance-update, open_closed, open_realized, open_basis,
}

select_holds :
    (p : Trade → Bool) (row : Trade) (rest ts : List Trade)
    → select p ts ≡ row ∷ rest
    → p row ≡ true
unfolding select
select_holds p row rest [] e = cc
select_holds p row rest (t ∷ ts) e = elim (Bool-cases (p t)) [
  | inl hit ↦ ground arith
  | inr miss ↦ select_holds p row rest ts (ground arith)
]

if_same {ℓ} : {A : Type ℓ} (b : Bool) (x : A) → (if b then x else x) ≡ x
if_same true x = refl
if_same false x = refl

accepted_second :
    (b : Bool) (l : Ledger) {l' : Ledger} {x : Ledger × Bool}
    → (if b then (l, false) else x) ≡ (l', true)
    → x ≡ (l', true)
accepted_second true l e = cc
accepted_second false l e = e

module _ (times : ℤ → ℤ → ℤ) (same : ℤ → ℤ → Bool) where
  -- What the update marks and keeps of a row, and what it adds to the sums.
  realized_lem :
      (start : ℕ) (stage : Stage) (price : ℤ) (r : Supplied) (state : Text) (row : Trade)
      → let row' = realized times same stage price r state row in
        (done_of stage row' ≡ 1)
        × (is_open row' ≡ is_open row)
        × (counts_for start row' ≡ counts_for start row)
        × (amount_of row'.realized_pnl_usdt
            ≡ amount_of row.realized_pnl_usdt +ℤ expected_pnl times same r row)
        × (basis_of row' ≡ basis_of row -ℤ expected_sold_basis times same r row)
  unfolding realized
  realized_lem start tp1 price r state row = (refl, refl, refl, refl, refl)
  realized_lem start tp2 price r state row = (refl, refl, refl, refl, refl)

  -- A stage that is done is turned down.
  done_again :
      (trade_id : ℕ) (stage : Stage) (price : ℤ) (r : Supplied) (state : Text) (row : Trade)
      (l : Ledger)
      → done_of stage row ≡ 1
      → select (is_open_id trade_id) l.trades ≡ row ∷ []
      → apply_partial_realization times same trade_id (some stage) price (some r) state l
        ≡ (l, false)
  unfolding apply_partial_realization realize_row is_turned_down
  done_again trade_id stage price r state row l done found =
      let down : is_turned_down times same stage price r row ≡ true =
        rw (is_turned_down, done) refl in
      rw (apply_partial_realization, found, realize_row, down) (if_same _ (l, false))

  found_row :
      (trade_id : ℕ) (stage : Stage) (price : ℤ) (r : Supplied) (state : Text) (row : Trade)
      (l l' : Ledger)
      → select (is_open_id trade_id) l.trades ≡ row ∷ []
      → apply_partial_realization times same trade_id (some stage) price (some r) state l
        ≡ (l', true)
      → realize_row times same trade_id stage price r state (row ∷ []) l ≡ (l', true)
  unfolding apply_partial_realization
  found_row trade_id stage price r state row l l' found e =
      ap (λ rows. realize_row times same trade_id stage price r state rows l) (sym found)
      ∙ accepted_second (leb_ℤ price (pos 0) || leb_ℤ r.fraction (pos 0) || ltb_ℤ one r.fraction) l
          e

  -- An accepted partial realization of the one open row of an id: the row becomes the realized one,
  -- the realization is recorded, and the balance of the account grows by just the net proceeds. The
  -- same stage is not realized again.
  pub realization_pays :
      (trade_id : ℕ) (stage : Stage) (price : ℤ) (r : Supplied) (state : Text) (row : Trade)
      (l l' : Ledger) (starting : ℤ) (start : ℕ)
      → select (is_open_id trade_id) l.trades ≡ row ∷ []
      → counts_for start row ≡ true
      → apply_partial_realization times same trade_id (some stage) price (some r) state l
        ≡ (l', true)
      → (select (is_open_id trade_id) l'.trades ≡ realized times same stage price r state row ∷ [])
        × (l'.realizations
            ≡ l.realizations ++ realization_row times same trade_id stage price r row ∷ [])
        × (balance starting start l'.trades
            ≡ balance starting start l.trades +ℤ r.net_proceeds_usdt)
        × ((p : ℤ) (again : Supplied) (s : Text)
            → apply_partial_realization times same trade_id (some stage) p (some again) s l'
              ≡ (l', false))
  realization_pays trade_id stage price r state row l l' starting start found counts done =
      let f = realized times same stage price r state in
      let (fine, trades, rows) =
        accepted times same trade_id stage price r state row [] l l'
          (found_row trade_id stage price r state row l l' found done) in
      let (marked, opens, counted, pnl, basis) = realized_lem start stage price r state row in
      let is_id = select_holds (is_open_id trade_id) row [] l.trades found in
      let opened : is_open row ≡ true = ground arith in
      let opened' : is_open (f row) ≡ true = opens ∙ opened in
      let counts' : counts_for start (f row) ≡ true = counted ∙ counts in
      let selected : select (is_open_id trade_id) l'.trades ≡ f row ∷ [] =
        ap (select (is_open_id trade_id)) trades
        ∙ select-update (is_open_id trade_id) f l.trades
            (realized-open_id times same trade_id stage price r state)
        ∙ ap (map f) found in
      (
        selected,
        rows,
        ap (balance starting start) trades
            ∙ balance-update starting start (is_open_id trade_id) f row l.trades
                (expected_pnl times same r row) (expected_sold_basis times same r row)
                r.net_proceeds_usdt found (open_closed start row opened)
                (open_closed start (f row) opened')
                (open_realized start (f row) opened' counts'
                  ∙ pnl
                  ∙ ap (λ x. x +ℤ expected_pnl times same r row)
                      (sym (open_realized start row opened counts)))
                (open_basis start (f row) opened' counts'
                  ∙ basis
                  ∙ ap (λ x. x -ℤ expected_sold_basis times same r row)
                      (sym (open_basis start row opened counts)))
                refl,
        λ p again s. done_again trade_id stage p again s (f row) l' marked selected,
      )
