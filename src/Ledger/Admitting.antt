-- ===== src/Ledger/Admitting.antt =====
-- When `insert_if_below_open_limit` of app/paper/database.py admits a trade.
use coinoskobi_dexbot.Common.{
  ◌<◌, max, true, false, not, ◌&&◌, ◌≡◌, ◌≢◌, refl, sym, ◌∙◌, ap, Option, none, some, List, [], ◌∷◌,
  length, leb, arith, if_cases, Option-cases, ◌⊎◌, inl, inr, some_eq,
}
use coinoskobi_dexbot.Common.Int.{ℤ, pos, pos_part, ◌+ℤ◌, ◌≤ℤ◌, ltb_ℤ}
use coinoskobi_dexbot.Common.Text.{Text}
use coinoskobi_dexbot.Row.{truthy}
use coinoskobi_dexbot.Ledger.Trade.{Trade, text_of, amount_of}
use coinoskobi_dexbot.Ledger.Contract.{
  ControlMode, TradeType, Canonical, canonical, invalid_control_mode, invalid_trade_type,
  canonicalize_trade_axes, with_axes, or_legacy, is_explicit, is_none, normalize_control_mode,
  normalize_trade_type, legacy_trade_contract,
}
use coinoskobi_dexbot.Ledger.Control.{get_control_mode_from_connection, is_auto}
use coinoskobi_dexbot.Ledger.Store.{
  Ledger, is_open, is_of, exists, same_token, clash, is_taken, has_open_position, open_positions,
}
use coinoskobi_dexbot.Ledger.Capital.{paper_capital_usdt, paper_available_capital_usdt}
use coinoskobi_dexbot.Ledger.Insert.{
  Inserted, inserted, refused, token_required, runs_invalid, is_beyond, is_funded, asks_for_auto,
  after_capital, appended, insert_canonical, insert, caught, insert_funded, insert_below,
  insert_if_below_open_limit,
}

-- The free capital covers an entry, up to the unit of the comparison.
abbrev pub Covers : ℤ → ℤ → Type 0
Covers free entry = (ltb_ℤ (pos 0) entry ≡ true) × (entry ≤ℤ (free +ℤ pos 1))

-- What an insert asks of the ledger and the trade; `row` is the trade with its axes.
pub record IsAdmitted (trade : Trade) (limit : ℤ) (l : Ledger) (row : Trade) : Type 0 where
  pub named : truthy trade.token ≡ true
  pub mode :
      (is_auto (get_control_mode_from_connection l.control) ≡ true) ⊎ (asks_for_auto trade ≡ false)
  pub first : has_open_position (text_of trade.token) l ≡ false
  pub below : length (open_positions l) < max 1 (pos_part limit)
  pub funded :
      (is_funded trade ≡ false)
      ⊎ ((free : ℤ) × (paper_available_capital_usdt paper_capital_usdt l ≡ some free)
          × Covers free (amount_of trade.entry_amount_usdt))
  pub axes : canonicalize_trade_axes trade ≡ canonical row

untaken :
    (token : Text) (t : Trade) (ts : List Trade)
    → t.token ≡ some token
    → exists (λ trade. is_of token trade && is_open trade) ts ≡ false
    → is_taken t ts ≡ false
unfolding is_taken exists clash same_token is_of
untaken token t [] e h = refl
untaken token t (u ∷ ts) e h = elim (Option-cases u.token) [
  | inl none_u ↦ ground (arith, untaken token t ts e)
  | inr (b, some_u) ↦ ground (arith, untaken token t ts e)
]

pub canonical_eq : {t u : Trade} → canonical t ≡ canonical u → t ≡ u
canonical_eq e = cc

-- The axes are all that routing changes.
pub axes_lem :
    (trade row : Trade)
    → canonicalize_trade_axes trade ≡ canonical row
    → (mode : Option ControlMode) × (type : Option TradeType) × (row ≡ with_axes mode type trade)
unfolding canonicalize_trade_axes
axes_lem trade row =
    let legacy = legacy_trade_contract trade.trade_policy in
    let mode = normalize_control_mode trade.control_mode in
    let type = normalize_trade_type trade.trade_type in
    let P : Canonical → Type 0 = λ r.
      r ≡ canonical row
      → (m : Option ControlMode) × (t : Option TradeType) × (row ≡ with_axes m t trade) in
    if_cases P (is_explicit trade.control_mode && is_none mode) (λ _ e. cc)
      (λ _.
        if_cases P (is_explicit trade.trade_type && is_none type) (λ _ e. cc)
          (λ _ e. (
            or_legacy mode (λ c. c.0) legacy,
            or_legacy type (λ c. c.1) legacy,
            sym (canonical_eq e),
          )))

axes-token :
    (trade row : Trade) → canonicalize_trade_axes trade ≡ canonical row → row.token ≡ trade.token
axes-token trade row e =
    let (mode, type, same) = axes_lem trade row e in ap (λ (t : Trade). t.token) same

caught_plain :
    (now token : Text) (trade : Trade) (c : Canonical) (l : Ledger)
    → trade.token ≡ some token
    → has_open_position token l ≡ false
    → ((row : Trade) → c ≡ canonical row → row.token ≡ trade.token)
    → ((row : Trade) × (c ≡ canonical row)
        × (caught l (insert_canonical now c l) ≡ (appended now row l, inserted)))
      ⊎ (((row : Trade) → c ≢ canonical row)
          × ((caught l (insert_canonical now c l)).0 ≡ l)
          × ((caught l (insert_canonical now c l)).1 ≢ inserted))
unfolding insert_canonical has_open_position
caught_plain now token trade invalid_control_mode l e h k = inr (λ row x. cc, refl, λ x. cc)
caught_plain now token trade invalid_trade_type l e h k = inr (λ row x. cc, refl, λ x. cc)
caught_plain now token trade (canonical row) l e h k =
    let free : is_taken row l.trades ≡ false = untaken token row l.trades (k row refl ∙ e) h in
    inl (row, refl, rw free refl)

-- What an insert does: the admitted row is appended, or nothing changes.
abbrev pub Outcome : Text → Trade → ℤ → Ledger → Ledger × Inserted → Type 0
Outcome now trade limit l r =
    ((row : Trade) × IsAdmitted trade limit l row × (r ≡ (appended now row l, inserted)))
    ⊎ (((row : Trade) → ¬ (IsAdmitted trade limit l row)) × (r.0 ≡ l) × (r.1 ≢ inserted))

-- The guards of a trade, up to the capital.
record PassesGuards (trade : Trade) (limit : ℤ) (l : Ledger) : Type 0 where
  named : truthy trade.token ≡ true
  mode :
      (is_auto (get_control_mode_from_connection l.control) ≡ true) ⊎ (asks_for_auto trade ≡ false)
  first : has_open_position (text_of trade.token) l ≡ false
  below : length (open_positions l) < max 1 (pos_part limit)

-- What the insert itself does.
abbrev Plain : Text → Trade → Ledger → Ledger × Inserted → Type 0
Plain now trade l r =
    ((row : Trade) × (canonicalize_trade_axes trade ≡ canonical row)
      × (r ≡ (appended now row l, inserted)))
    ⊎ (((row : Trade) → canonicalize_trade_axes trade ≢ canonical row)
        × (r.0 ≡ l)
        × (r.1 ≢ inserted))

module _ (now : Text) (trade : Trade) (limit : ℤ) (l : Ledger) where
  turned_down :
      (x : Inserted)
      → x ≢ inserted
      → ((row : Trade) → ¬ (IsAdmitted trade limit l row))
      → Outcome now trade limit l (l, x)
  turned_down x n h = inr (h, refl, n)

  plain_outcome :
      (r : Ledger × Inserted)
      → PassesGuards trade limit l
      → (is_funded trade ≡ false)
        ⊎ ((free : ℤ) × (paper_available_capital_usdt paper_capital_usdt l ≡ some free)
            × Covers free (amount_of trade.entry_amount_usdt))
      → Plain now trade l r
      → Outcome now trade limit l r
  plain_outcome r g funded (inl (row, axes, done)) = inl (
    row,
    record {
      named = g.named;
      mode = g.mode;
      first = g.first;
      below = g.below;
      funded = funded;
      axes = axes;
    },
    done,
  )
  plain_outcome r g funded (inr (bad, same, not_in)) = inr (λ row v. bad row v.axes, same, not_in)

  capital_outcome :
      (r : Ledger × Inserted) (free : Option ℤ)
      → paper_available_capital_usdt paper_capital_usdt l ≡ free
      → is_funded trade ≡ true
      → PassesGuards trade limit l
      → Plain now trade l r
      → Outcome now trade limit l (after_capital trade l r free)
  capital_outcome r none e f g plain =
      turned_down runs_invalid (λ x. cc)
        λ row v. elim v.funded [ inl not_funded ↦ cc | inr (free, found, _) ↦ cc ]
  capital_outcome r (some free) e f g plain =
      if_cases (Outcome now trade limit l) (is_beyond (amount_of trade.entry_amount_usdt) free)
        (λ beyond.
          turned_down refused (λ x. cc)
            λ row v. elim v.funded [
              | inl not_funded ↦ cc
              | inr (found, at, covers) ↦
                  let same : found ≡ free = some_eq (sym at ∙ e) in ground arith
            ])
        (λ within. plain_outcome r g (inr (free, e, (ground arith, ground arith))) plain)

  funded_outcome :
      (token : Text)
      → trade.token ≡ some token
      → PassesGuards trade limit l
      → Outcome now trade limit l (insert_funded now trade l)
  unfolding insert_funded insert
  funded_outcome token e g =
      let first : has_open_position token l ≡ false = rw (sym (ap text_of e)) g.first in
      let plain =
        caught_plain now token trade (canonicalize_trade_axes trade) l e first (axes-token trade) in
      if_cases (Outcome now trade limit l) (is_funded trade)
        (λ f.
          capital_outcome (caught l (insert now trade l))
            (paper_available_capital_usdt paper_capital_usdt l) refl f g plain)
        (λ n. plain_outcome (caught l (insert now trade l)) g (inl n) plain)

-- `insert_if_below_open_limit` admits a trade exactly if it names a token, the AUTO entry is not
-- barred by the MANUAL mode, the token has no open position, fewer positions are open than the
-- limit, the free capital covers the entry of a trade of the funded account, and its axes are valid;
-- it then appends the row with its axes, and else the ledger stays as it was. The unique index never
-- decides.
pub admission_lem :
    (now : Text) (trade : Trade) (limit : ℤ) (l : Ledger)
    → Outcome now trade limit l (insert_if_below_open_limit now trade limit l)
unfolding insert_if_below_open_limit insert_below
admission_lem now trade limit l = elim (Option-cases trade.token) [
  | inl unnamed ↦ inr (
    rw (insert_if_below_open_limit, unnamed) (λ row v. ground (arith, v.named)),
    rw (insert_if_below_open_limit, unnamed) refl,
    rw (insert_if_below_open_limit, unnamed) (λ x. cc),
  )
  | inr (token, e) ↦
      let at : text_of trade.token ≡ token = ap text_of e in
      if_cases (Outcome now trade limit l) (truthy trade.token)
        (λ named.
          if_cases (Outcome now trade limit l)
            (not (is_auto (get_control_mode_from_connection l.control)) && asks_for_auto trade)
            (λ barred.
              turned_down now trade limit l refused (λ x. cc) λ row v. ground (arith, v.mode))
            (λ mode.
              if_cases (Outcome now trade limit l) (has_open_position (text_of trade.token) l)
                (λ taken. turned_down now trade limit l refused (λ x. cc) λ row v. cc)
                (λ first.
                  if_cases (Outcome now trade limit l)
                    (leb (max 1 (pos_part limit)) (length (open_positions l)))
                    (λ full.
                      turned_down now trade limit l refused (λ x. cc)
                        λ row v. ground (arith, v.below))
                    (λ below. funded_outcome now trade limit l token e (record {
                      named = named;
                      mode = ground arith;
                      first = first;
                      below = ground arith;
                    })))))
        (λ blank. turned_down now trade limit l token_required (λ x. cc) λ row v. cc)
]
