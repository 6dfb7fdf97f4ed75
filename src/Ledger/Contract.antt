-- ===== src/Ledger/Contract.antt =====
-- app/paper/trade_contract.py and app/paper/trade_routing.py: the axes of a trade, who controls it
-- and of what type it is, as explicit columns or by the legacy policy.
use coinoskobi_dexbot.Common.{Bool, true, false, ◌&&◌, Option, none, some, if◌then◌else◌}
use coinoskobi_dexbot.Common.Text.{Text, codes, text_eq, strip}
use coinoskobi_dexbot.Row.{nonempty}
use coinoskobi_dexbot.Ledger.Trade.{Trade, text_of, normalized}

-- `CONTROL_MODES`, `TRADE_TYPES` and `LEVEL_SOURCES`
pub data ControlMode : Type 0 where
  auto manual : ControlMode

pub data TradeType : Type 0 where
  normal vur_kac : TradeType

pub data LevelSource : Type 0 where
  system user_overridden : LevelSource

unfoldable pub mode_name : ControlMode → Text
mode_name auto = codes "AUTO"
mode_name manual = codes "MANUAL"

unfoldable pub type_name : TradeType → Text
type_name normal = codes "NORMAL"
type_name vur_kac = codes "VUR_KAC"

abbrev pub mode_named : Text → Option ControlMode
mode_named s =
    if text_eq s (codes "AUTO")
    then some auto
    else if text_eq s (codes "MANUAL")
    then some manual
    else none

abbrev pub type_named : Text → Option TradeType
type_named s =
    if text_eq s (codes "NORMAL")
    then some normal
    else if text_eq s (codes "VUR_KAC")
    then some vur_kac
    else none

-- `normalize_control_mode`, `normalize_trade_type` and `normalize_level_source`
unfoldable pub normalize_control_mode : Option Text → Option ControlMode
unfolding normalized
normalize_control_mode value = mode_named (normalized value)

unfoldable pub normalize_trade_type : Option Text → Option TradeType
unfolding normalized
normalize_trade_type value = type_named (normalized value)

unfoldable pub normalize_level_source : Option Text → Option LevelSource
unfolding normalized
normalize_level_source value =
    if text_eq (normalized value) (codes "SYSTEM")
    then some system
    else if text_eq (normalized value) (codes "USER_OVERRIDDEN")
    then some user_overridden
    else none

-- `LEGACY_TRADE_POLICY_MAP`
abbrev pub policy_named : Text → Option (ControlMode × TradeType)
policy_named s =
    if text_eq s (codes "NORMAL")
    then some (auto, normal)
    else if text_eq s (codes "VUR_KAC")
    then some (auto, vur_kac)
    else if text_eq s (codes "MANUAL_PANEL")
    then some (manual, normal)
    else none

-- `legacy_trade_contract`
unfoldable pub legacy_trade_contract : Option Text → Option (ControlMode × TradeType)
unfolding normalized
legacy_trade_contract trade_policy = policy_named (normalized trade_policy)

-- The result of `canonicalize_trade_axes`; it raises for an explicit axis that is not known.
pub data Canonical : Type 0 where
  canonical : Trade → Canonical
  invalid_control_mode invalid_trade_type : Canonical

-- `str(x or "").strip()` is not empty.
abbrev pub is_explicit : Option Text → Bool
is_explicit value = nonempty (strip (text_of value))

abbrev pub is_none {ℓ} : {A : Type ℓ} → Option A → Bool
is_none none = true
is_none (some a) = false

-- An axis, or else the one that the legacy policy has.
abbrev pub or_legacy : {A B : Type 0} → Option A → (B → A) → Option B → Option A
or_legacy (some a) axis legacy = some a
or_legacy none axis none = none
or_legacy none axis (some contract) = some (axis contract)

-- `value[column] = name`, when the axis is known.
abbrev pub column_of : {A : Type 0} → (A → Text) → Option A → Option Text → Option Text
column_of name none old = old
column_of name (some a) old = some (name a)

abbrev pub with_axes : Option ControlMode → Option TradeType → Trade → Trade
with_axes control_mode trade_type trade = record trade {
  control_mode = column_of mode_name control_mode trade.control_mode;
  trade_type = column_of type_name trade_type trade.trade_type;
}

-- `canonicalize_trade_axes`
unfoldable pub canonicalize_trade_axes : Trade → Canonical
unfolding normalize_control_mode normalize_trade_type legacy_trade_contract mode_name type_name
    strip
canonicalize_trade_axes trade =
    let control_mode = normalize_control_mode trade.control_mode in
    let trade_type = normalize_trade_type trade.trade_type in
    let legacy = legacy_trade_contract trade.trade_policy in
    if is_explicit trade.control_mode && is_none control_mode
    then invalid_control_mode
    else if is_explicit trade.trade_type && is_none trade_type
    then invalid_trade_type
    else canonical (
        with_axes (or_legacy control_mode (λ c. c.0) legacy)
          (or_legacy trade_type (λ c. c.1) legacy) trade)

abbrev pub type_of_contract : Option (ControlMode × TradeType) → Option TradeType
type_of_contract none = none
type_of_contract (some contract) = some contract.1

-- `lifecycle_trade_type`
unfoldable pub lifecycle_trade_type : Trade → Option TradeType
unfolding normalize_trade_type legacy_trade_contract strip
lifecycle_trade_type position =
    if is_explicit position.trade_type
    then normalize_trade_type position.trade_type
    else type_of_contract (legacy_trade_contract position.trade_policy)
