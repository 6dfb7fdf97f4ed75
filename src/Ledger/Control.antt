-- ===== src/Ledger/Control.antt =====
-- app/paper/control_mode.py: the mode in the only row of `paper_runtime_control`. `none` is a table
-- that does not exist, `some none` one without the row.
use coinoskobi_dexbot.Common.{Bool, true, false, Option, none, some}
use coinoskobi_dexbot.Common.Text.{Text}
use coinoskobi_dexbot.Ledger.Contract.{ControlMode, auto, manual, mode_name, normalize_control_mode}

abbrev pub Control : Type 0
Control = Option (Option Text)

-- `ensure_control_mode_schema`
unfoldable pub ensure_control_mode_schema : Control → Control
unfolding mode_name
ensure_control_mode_schema none = some (some (mode_name auto))
ensure_control_mode_schema (some none) = some (some (mode_name auto))
ensure_control_mode_schema (some (some mode)) = some (some mode)

-- A mode that is not known reads as `DEFAULT_CONTROL_MODE`.
abbrev pub or_auto : Option ControlMode → ControlMode
or_auto none = auto
or_auto (some mode) = mode

-- `get_control_mode_from_connection`
unfoldable pub get_control_mode_from_connection : Control → ControlMode
unfolding normalize_control_mode
get_control_mode_from_connection none = auto
get_control_mode_from_connection (some none) = auto
get_control_mode_from_connection (some (some mode)) = or_auto (normalize_control_mode (some mode))

-- `get_control_mode`
unfoldable pub get_control_mode : Control → Control × ControlMode
unfolding ensure_control_mode_schema get_control_mode_from_connection
get_control_mode c =
    let c' = ensure_control_mode_schema c in (c', get_control_mode_from_connection c')

-- `set_control_mode`; it raises for a mode that is not known.
unfoldable pub set_control_mode : Option Text → Control → Option (Control × ControlMode)
unfolding normalize_control_mode mode_name
set_control_mode mode c = elim (normalize_control_mode mode) [
  | none ↦ none
  | some m ↦ some (some (some (mode_name m)), m)
]

-- `auto_entry_enabled`
abbrev pub is_auto : ControlMode → Bool
is_auto auto = true
is_auto manual = false

unfoldable pub auto_entry_enabled : Control → Bool
unfolding get_control_mode
auto_entry_enabled c = is_auto (get_control_mode c).1
