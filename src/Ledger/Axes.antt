-- ===== src/Ledger/Axes.antt =====
-- The axes of app/paper/trade_routing.py, and the MANUAL mode in app/paper/database.py.
use coinoskobi_dexbot.Common.{
  Bool, true, false, ◌&&◌, ◌≡◌, refl, sym, ◌∙◌, ap, Option, none, some, [], ◌∷◌, if◌then◌else◌,
  arith, if_cases,
}
use coinoskobi_dexbot.Common.Text.{Text, strip}
use coinoskobi_dexbot.Row.{nonempty}
use coinoskobi_dexbot.Ledger.Trade.{Trade, text_of, normalized}
use coinoskobi_dexbot.Ledger.Contract.{
  ControlMode, auto, manual, TradeType, normal, vur_kac, mode_name, type_name,
  normalize_control_mode, normalize_trade_type, legacy_trade_contract, Canonical, canonical,
  is_explicit, is_none, or_legacy, column_of, with_axes, canonicalize_trade_axes, type_of_contract,
  lifecycle_trade_type,
}
use coinoskobi_dexbot.Ledger.Admitting.{canonical_eq}

normalize_mode_name : (m : ControlMode) → normalize_control_mode (some (mode_name m)) ≡ some m
unfolding normalize_control_mode mode_name
normalize_mode_name auto = refl
normalize_mode_name manual = refl

normalize_type_name : (t : TradeType) → normalize_trade_type (some (type_name t)) ≡ some t
unfolding normalize_trade_type type_name
normalize_type_name normal = refl
normalize_type_name vur_kac = refl

explicit_name : (t : TradeType) → is_explicit (some (type_name t)) ≡ true
unfolding type_name strip
explicit_name normal = refl
explicit_name vur_kac = refl

nonempty-false : (s : Text) → nonempty s ≡ false → s ≡ []
nonempty-false [] h = refl
nonempty-false (c ∷ s) h = cc

-- An axis that was written down is read back as it is.
module _ {A B : Type 0} (name : A → Text) (axis : B → A) (read : Option Text → Option A)
    (back : (a : A) → read (some (name a)) ≡ some a) where
  again :
      (v : Option Text) (n : Option A) (legacy : Option B) (explicit : Option Text → Bool)
      → read v ≡ n
      → (explicit v && is_none n) ≡ false
      → let v' = column_of name (or_legacy n axis legacy) v in
        ((explicit v' && is_none (read v')) ≡ false)
        × (column_of name (or_legacy (read v') axis legacy) v' ≡ v')
  again v (some a) legacy explicit e h = (ground (arith, back a), ground (arith, back a))
  again v none none explicit e h = (rw e h, rw e refl)
  again v none (some b) explicit e h =
      (ground (arith, back (axis b)), ground (arith, back (axis b)))

-- The routing of a trade whose axes are neither of them invalid.
routed :
    (trade : Trade)
    → (is_explicit trade.control_mode && is_none (normalize_control_mode trade.control_mode))
      ≡ false
    → (is_explicit trade.trade_type && is_none (normalize_trade_type trade.trade_type)) ≡ false
    → let legacy = legacy_trade_contract trade.trade_policy in
      canonicalize_trade_axes trade
      ≡ canonical (
          with_axes
            (or_legacy (normalize_control_mode trade.control_mode) (λ c. c.0) legacy)
            (or_legacy (normalize_trade_type trade.trade_type) (λ c. c.1) legacy)
            trade)
unfolding canonicalize_trade_axes
routed trade h k = rw (canonicalize_trade_axes, h, k) refl

abbrev pub routed_row : Trade → Trade
routed_row trade =
    let legacy = legacy_trade_contract trade.trade_policy in
    with_axes (or_legacy (normalize_control_mode trade.control_mode) (λ c. c.0) legacy)
      (or_legacy (normalize_trade_type trade.trade_type) (λ c. c.1) legacy) trade

-- What a routed trade has passed, and what it is.
pub routed_lem :
    (trade row : Trade)
    → canonicalize_trade_axes trade ≡ canonical row
    → ((is_explicit trade.control_mode && is_none (normalize_control_mode trade.control_mode))
        ≡ false)
      × ((is_explicit trade.trade_type && is_none (normalize_trade_type trade.trade_type)) ≡ false)
      × (row ≡ routed_row trade)
unfolding canonicalize_trade_axes
routed_lem trade row =
    let bad_mode =
      is_explicit trade.control_mode && is_none (normalize_control_mode trade.control_mode) in
    let bad_type =
      is_explicit trade.trade_type && is_none (normalize_trade_type trade.trade_type) in
    let P : Canonical → Type 0 =
      λ r. r ≡ canonical row → (bad_mode ≡ false) × (bad_type ≡ false) × (row ≡ routed_row trade) in
    if_cases P bad_mode (λ _ e. cc)
      (λ fine. if_cases P bad_type (λ _ e. cc) (λ fine' e. (fine, fine', sym (canonical_eq e))))

with_same :
    (m : Option ControlMode) (t : Option TradeType) (w : Trade)
    → column_of mode_name m w.control_mode ≡ w.control_mode
    → column_of type_name t w.trade_type ≡ w.trade_type
    → with_axes m t w ≡ w
with_same m t w e f = rw (e, f) refl

-- Routing a routed trade changes nothing more.
canonicalize_idem :
    (trade row : Trade)
    → canonicalize_trade_axes trade ≡ canonical row
    → canonicalize_trade_axes row ≡ canonical row
canonicalize_idem trade row e =
    let (fine, fine', same) = routed_lem trade row e in
    let legacy = legacy_trade_contract trade.trade_policy in
    let (mode_ok, mode_same) =
      again mode_name (λ (c : ControlMode × TradeType). c.0) normalize_control_mode
        normalize_mode_name trade.control_mode (normalize_control_mode trade.control_mode) legacy
        is_explicit refl fine in
    let (type_ok, type_same) =
      again type_name (λ (c : ControlMode × TradeType). c.1) normalize_trade_type
        normalize_type_name trade.trade_type (normalize_trade_type trade.trade_type) legacy
        is_explicit refl fine' in
    rw same (
      routed (routed_row trade) mode_ok type_ok
      ∙ ap canonical (with_same _ _ (routed_row trade) mode_same type_same))

blank_type : (v : Option Text) → is_explicit v ≡ false → normalize_trade_type v ≡ none
unfolding normalize_trade_type normalized
blank_type v h =
    let blank : strip (text_of v) ≡ [] = nonempty-false (strip (text_of v)) h in
    rw (normalize_trade_type, normalized, blank) refl

-- The type that a position is treated by, before and behind the routing of its column.
type_kept :
    (v : Option Text) (n : Option TradeType) (legacy : Option (ControlMode × TradeType))
    (explicit : Bool)
    → is_explicit v ≡ explicit
    → normalize_trade_type v ≡ n
    → (explicit && is_none n) ≡ false
    → let v' = column_of type_name (or_legacy n (λ c. c.1) legacy) v in
      (if is_explicit v' then normalize_trade_type v' else type_of_contract legacy)
      ≡ (if is_explicit v then normalize_trade_type v else type_of_contract legacy)
type_kept v (some t) legacy true e f h = rw (explicit_name t, normalize_type_name t, e, f) refl
type_kept v (some t) legacy false e f h = absurd (ground (arith, blank_type v e))
type_kept v none legacy true e f h = cc
type_kept v none none false e f h = refl
type_kept v none (some (mode, t)) false e f h = rw (explicit_name t, normalize_type_name t, e) refl

-- A routed trade is in its canonical form: routing it again changes nothing, and the type that a
-- position is treated by is the same before and behind the routing.
pub canonicalize_lem :
    (trade row : Trade)
    → canonicalize_trade_axes trade ≡ canonical row
    → (canonicalize_trade_axes row ≡ canonical row)
      × (lifecycle_trade_type row ≡ lifecycle_trade_type trade)
unfolding lifecycle_trade_type
canonicalize_lem trade row e =
    let (fine, fine', same) = routed_lem trade row e in
    (
      canonicalize_idem trade row e,
      rw same (
          type_kept trade.trade_type (normalize_trade_type trade.trade_type)
            (legacy_trade_contract trade.trade_policy) (is_explicit trade.trade_type) refl refl
            fine'),
    )
