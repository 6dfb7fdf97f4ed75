-- ===== src/Tests/Safety.antt =====
-- The guards of app/risk, app/pipeline, app/paper and app/dex on small inputs.
use coinoskobi_dexbot.Common.{true, false, ◌≡◌, ◌↔◌, refl, Option, none, some, List, [], ◌∷◌, arith}
use coinoskobi_dexbot.Common.Int.{pos}
use coinoskobi_dexbot.Common.Text.{Text, codes, upper, strip}
use coinoskobi_dexbot.Row.{missing, given}
use coinoskobi_dexbot.Exit.Controller.{nothing, finite, number, evaluate_hybrid_exit, unsellable}
use coinoskobi_dexbot.Exit.Laws.{IsKept, exit_now_iff}
use coinoskobi_dexbot.Gate.Evaluate.{Risk, yes, no, no_facts, block, caution, evaluate}
use coinoskobi_dexbot.Gate.Laws.{HasHardFact, HasWarning, evaluate_status}
use coinoskobi_dexbot.Mode.Readmodel.{ModeInputs, build_operating_mode_readmodel}
use coinoskobi_dexbot.Mode.Laws.{IsReady, readiness_iff}
use coinoskobi_dexbot.Provider.Resilience.{
  rate_limit, name_of, classify_provider_failure, provider_cooldown_seconds,
}
use coinoskobi_dexbot.Provider.Laws.{cooldown-classify}
use coinoskobi_dexbot.History.Store.{HistoryKey, priced, History, setdefault}
use coinoskobi_dexbot.History.Use.{IsValid, IsUsed, setdefault_lem}
use coinoskobi_dexbot.Paper.Admission.{
  paper_admission_decision, paper_buy, status_of, IsAdmitted, paper_buy_iff,
}

-- Above its floor the position stays open, at it the position goes.
exits_at_the_floor :
    ((evaluate_hybrid_exit
        (finite (pos 10))
        (finite (pos 13))
        nothing
        (finite (pos 12))
        false
        missing).exit_now
      ≡ false)
    × ((evaluate_hybrid_exit
          (finite (pos 10))
          (finite (pos 12))
          nothing
          (finite (pos 12))
          false
          missing).exit_now
        ≡ true)
unfolding evaluate_hybrid_exit
exits_at_the_floor = (refl, refl)

exit_now_iff_example :
    ((evaluate_hybrid_exit
        (finite (pos 10))
        (finite (pos 13))
        nothing
        (finite (pos 12))
        false
        (given (codes "unsellable"))).exit_now
      ≡ false)
    ↔ IsKept
        (number (finite (pos 10)))
        (number (finite (pos 13)))
        (number (finite (pos 12)))
        false
        (unsellable (given (codes "unsellable")))
exit_now_iff_example =
    exit_now_iff (finite (pos 10)) (finite (pos 13)) nothing (finite (pos 12)) false
      (given (codes "unsellable"))

at_floor :
    (evaluate_hybrid_exit
      (finite (pos 10))
      (finite (pos 12))
      nothing
      (finite (pos 12))
      false
      missing).exit_now
    ≡ true
unfolding evaluate_hybrid_exit
at_floor = refl

locked :
    (evaluate_hybrid_exit
      (finite (pos 10))
      (finite (pos 15))
      nothing
      (finite (pos 12))
      false
      missing).profit_lock_price
    ≡ some (pos 12)
unfolding evaluate_hybrid_exit
locked = refl

abbrev pausable : Risk
pausable = record no_facts { pause = yes; honeypot = no }

evaluate_status_example :
    (((evaluate pausable).status ≡ block) ↔ HasHardFact pausable)
    × (((evaluate pausable).hard_block ≡ true) ↔ HasHardFact pausable)
    × (((evaluate pausable).status ≡ caution) ↔ ((¬ HasHardFact pausable) × HasWarning pausable))
evaluate_status_example = evaluate_status pausable

pausable_is_caution : (evaluate pausable).status ≡ caution
unfolding evaluate
pausable_is_caution = refl

abbrev auto_inputs : ModeInputs
auto_inputs = record {
  selected_mode = given (codes "auto");
  hard_block = false;
  sellability = none;
  liquidity_usd = some (pos 900);
  sl_tp_ready = true;
  max_loss_ready = true;
  daily_loss_cap_ready = true;
  kill_switch = false;
  live_ready = false;
  signing_ready = true;
  execution_ready = true;
}

only_live_is_missing :
    (build_operating_mode_readmodel auto_inputs).readiness_blockers ≡ codes "LIVE_NOT_READY" ∷ []
unfolding build_operating_mode_readmodel
only_live_is_missing = refl

readiness_iff_example :
    let view = build_operating_mode_readmodel auto_inputs in
    ((view.readiness_blockers ≡ []) ↔ IsReady view auto_inputs)
    × (view.effective_mode ≡ codes "PAPER")
readiness_iff_example = readiness_iff auto_inputs

abbrev too_many : Text
too_many = codes "HTTP 429"

too_many_is_rate_limit : classify_provider_failure too_many ≡ rate_limit
unfolding classify_provider_failure
too_many_is_rate_limit = refl

cooldown-classify_example :
    provider_cooldown_seconds (name_of (classify_provider_failure too_many)) (pos 300) (pos 15)
    ≡ provider_cooldown_seconds too_many (pos 300) (pos 15)
unfolding upper strip
cooldown-classify_example = cooldown-classify too_many (pos 300) (pos 15) refl

abbrev watched_key : HistoryKey
watched_key = priced (codes "0xa") (codes "0xp") (codes "1m")

abbrev plain_key : HistoryKey
plain_key = priced (codes "0xb") (codes "0xq") (codes "1m")

abbrev new_key : HistoryKey
new_key = priced (codes "0xc") (codes "0xr") (codes "1m")

abbrev two_histories : History Text
two_histories = record {
  max_entries = 2;
  items = (watched_key, codes "first") ∷ (plain_key, codes "second") ∷ [];
}

two_histories-IsValid : IsValid two_histories
two_histories-IsValid = record {
  positive = omega arith;
  unique = (refl, (refl, tt));
  bounded = omega arith;
}

abbrev watch_list : Option (List (Text × Text))
watch_list = some ((codes " 0xA", codes "0xP") ∷ [])

-- The watched history stays, though it is the oldest.
plain_goes :
    setdefault watch_list new_key (codes "third") two_histories
    ≡ some (
      record two_histories { items = (watched_key, codes "first") ∷ (new_key, codes "third") ∷ [] },
      codes "third",
    )
unfolding setdefault
plain_goes = refl

setdefault_example :
    (h' : History Text) × (value : Text) × (setdefault watch_list new_key
        (codes "third")
        two_histories
      ≡ some (h', value))
    × IsUsed watch_list new_key (codes "third") two_histories h' value
setdefault_example = setdefault_lem watch_list new_key (codes "third") two_histories-IsValid

paper_buy_iff_example :
    (paper_admission_decision
        (some (codes "PAPER_BUY"))
        (some (codes "WATCH"))
        false
        (given (codes "SELLABILITY_UNKNOWN"))
      ≡ paper_buy)
    ↔ IsAdmitted
        (some (codes "PAPER_BUY"))
        (some (codes "WATCH"))
        false
        (status_of (given (codes "SELLABILITY_UNKNOWN")))
paper_buy_iff_example =
    paper_buy_iff (some (codes "PAPER_BUY")) (some (codes "WATCH")) false
      (given (codes "SELLABILITY_UNKNOWN"))
