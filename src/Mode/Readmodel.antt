-- ===== src/Mode/Readmodel.antt =====
-- `build_operating_mode_readmodel` of app/pipeline/operating_mode.py. What the function passes
-- through unread, and the flags that it writes as constants besides the authorities, are left out.
use coinoskobi_dexbot.Common.{
  Bool, false, not, ◌&&◌, ◌||◌, Option, none, some, List, ◌++◌, if◌then◌else◌,
}
use coinoskobi_dexbot.Common.Int.{ℤ, pos, leb_ℤ}
use coinoskobi_dexbot.Common.Reasons.{reason_if}
use coinoskobi_dexbot.Common.Text.{Text, codes, text_eq, upper}
use coinoskobi_dexbot.Row.{Field, text_or}

pub record ModeInputs : Type 0 where
  pub selected_mode : Field Text
  pub hard_block : Bool
  pub sellability : Option Text
  pub liquidity_usd : Option ℤ
  pub sl_tp_ready : Bool
  pub max_loss_ready : Bool
  pub daily_loss_cap_ready : Bool
  pub kill_switch : Bool
  pub live_ready : Bool
  pub signing_ready : Bool
  pub execution_ready : Bool

pub record ModeView : Type 0 where
  pub selected : Text
  pub effective_mode : Text
  pub mode_state : Text
  pub manual_available : Bool
  pub auto_requested : Bool
  pub auto_ready : Bool
  pub readiness_blockers : List Text
  pub trade_authority : Bool
  pub signing_authority : Bool
  pub execution_authority : Bool

-- `in VALID_MODES`
abbrev pub valid_mode : Text → Bool
valid_mode s = text_eq s (codes "PAPER") || text_eq s (codes "MANUAL") || text_eq s (codes "AUTO")

-- `str(selected_mode or DEFAULT_MODE).upper()`
unfoldable pub requested_mode : Field Text → Text
unfolding upper
requested_mode mode = upper (text_or mode (codes "PAPER"))

unfoldable pub selected_of : Field Text → Text
unfolding requested_mode
selected_of mode =
    let selected = requested_mode mode in if valid_mode selected then selected else codes "PAPER"

-- `sellability not in {"SELLABILITY_OK", None}`
abbrev pub not_sellable : Option Text → Bool
not_sellable none = false
not_sellable (some s) = not (text_eq s (codes "SELLABILITY_OK"))

-- `liquidity_usd is not None and float(liquidity_usd) <= 0`
abbrev pub not_liquid : Option ℤ → Bool
not_liquid none = false
not_liquid (some n) = leb_ℤ n (pos 0)

-- `readiness_blockers`
unfoldable pub blockers_of : Text → ModeInputs → List Text
blockers_of selected m =
    let auto = text_eq selected (codes "AUTO") in
    reason_if m.hard_block (codes "HARD_RISK_BLOCK")
    ++ (reason_if (not_sellable m.sellability) (codes "SELLABILITY_NOT_READY")
        ++ (reason_if (not_liquid m.liquidity_usd) (codes "LIQUIDITY_NOT_READY")
            ++ (reason_if (not m.sl_tp_ready) (codes "SL_TP_NOT_READY")
                ++ (reason_if (not m.max_loss_ready) (codes "MAX_LOSS_NOT_READY")
                    ++ (reason_if (not m.daily_loss_cap_ready) (codes "DAILY_LOSS_CAP_NOT_READY")
                        ++ (reason_if m.kill_switch (codes "KILL_SWITCH_ACTIVE")
                            ++ (reason_if (auto && not m.live_ready) (codes "LIVE_NOT_READY")
                                ++ (reason_if (auto && not m.signing_ready)
                                      (codes "SIGNING_NOT_READY")
                                    ++ reason_if (auto && not m.execution_ready)
                                        (codes "EXECUTION_NOT_READY")))))))))

-- `build_operating_mode_readmodel`
unfoldable pub build_operating_mode_readmodel : ModeInputs → ModeView
unfolding selected_of blockers_of
build_operating_mode_readmodel m =
    let selected = selected_of m.selected_mode in
    record {
      selected = selected;
      effective_mode = codes "PAPER";
      mode_state =
          if valid_mode (requested_mode m.selected_mode)
          then codes "SELECTED"
          else codes "INVALID_MODE_FALLBACK";
      manual_available = text_eq selected (codes "MANUAL");
      auto_requested = text_eq selected (codes "AUTO");
      auto_ready = false;
      readiness_blockers = blockers_of selected m;
      trade_authority = false;
      signing_authority = false;
      execution_authority = false;
    }
