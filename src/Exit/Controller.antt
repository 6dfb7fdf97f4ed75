-- ===== src/Exit/Controller.antt =====
-- `evaluate_hybrid_exit` of app/risk/hybrid_exit_controller.py. Prices are floats there, scaled to
-- integers here; what `float` makes of the argument is one of the cases of `Value`. The arguments
-- that the function ignores are left out.
use coinoskobi_dexbot.Common.{
  zero, Bool, true, false, not, ◌&&◌, ◌||◌, Option, none, some, if◌then◌else◌,
}
use coinoskobi_dexbot.Common.Int.{ℤ, pos, ltb_ℤ, leb_ℤ}
use coinoskobi_dexbot.Common.Text.{Text, codes, text_eq, upper}
use coinoskobi_dexbot.Row.{Field, text_or}

-- An argument that should be a price: None, a bool, a number or a text of one, an infinity or a
-- NaN, or a value that `float` refuses.
pub data Value : Type 0 where
  nothing : Value
  boolean : Bool → Value
  finite : ℤ → Value
  not_finite unreadable : Value

-- `_number`
unfoldable pub number : Value → Option ℤ
number (finite n) = some n
number _ = none

-- The reason of a decision, which decides its action as well.
pub data Reason : Type 0 where
  invalid_or_zero_price hard_block sellability_block dynamic_protection_floor : Reason
  mathematical_floor_runner no_exit_condition : Reason

pub data Action : Type 0 where
  emergency_exit exit runner hold : Action

pub record Decision : Type 0 where
  pub action : Action
  pub reason : Reason
  pub exit_now : Bool
  pub protect_profit : Bool
  pub runner_active : Bool
  pub protection_price : Option ℤ
  pub profit_lock_price : Option ℤ
  pub health_score : Option ℤ

abbrev pub positive : ℤ → Bool
positive n = ltb_ℤ (pos 0) n

-- `floor if floor and floor > 0 else None`
unfoldable pub positive_or_none : Option ℤ → Option ℤ
positive_or_none none = none
positive_or_none (some n) = if positive n then some n else none

-- `floor if floor is not None and floor > 0 else 0.0`
unfoldable pub floor_of : Option ℤ → ℤ
floor_of none = pos 0
floor_of (some n) = if positive n then n else pos 0

-- `max(highest if highest is not None else current, current)`, whose first argument wins a tie.
unfoldable pub highest_of : Option ℤ → ℤ → ℤ
highest_of none current = current
highest_of (some highest) current = if ltb_ℤ highest current then current else highest

-- `str(sellability or "SELLABILITY_UNKNOWN").upper()` is one of the blocking states.
unfoldable pub unsellable : Field Text → Bool
unfolding upper
unsellable sellability =
    let sell = upper (text_or sellability (codes "SELLABILITY_UNKNOWN")) in
    text_eq sell (codes "SELLABILITY_FAIL")
    || text_eq sell (codes "SELLABILITY_BLOCK")
    || text_eq sell (codes "UNSELLABLE")

-- `floor or None`
abbrev pub nonzero : ℤ → Option ℤ
nonzero (pos zero) = none
nonzero n = some n

-- `floor if floor > entry else None`
abbrev pub above : ℤ → ℤ → Option ℤ
above floor entry = if ltb_ℤ entry floor then some floor else none

abbrev pub emergency : Reason → Option ℤ → Decision
emergency reason protection = record {
  action = emergency_exit;
  reason = reason;
  exit_now = true;
  protect_profit = false;
  runner_active = false;
  protection_price = protection;
  profit_lock_price = none;
  health_score = none;
}

-- The code behind the check of the prices, with the floor and the highest price that it computes.
unfoldable pub decide : ℤ → ℤ → ℤ → ℤ → Bool → Bool → Decision
decide entry current highest floor blocked unsold =
    if blocked
    then emergency hard_block (nonzero floor)
    else if unsold
    then emergency sellability_block (nonzero floor)
    else if positive floor && leb_ℤ current floor
    then record {
      action = exit;
      reason = dynamic_protection_floor;
      exit_now = true;
      protect_profit = ltb_ℤ entry highest;
      runner_active = false;
      protection_price = some floor;
      profit_lock_price = above floor entry;
      health_score = none;
    }
    else if ltb_ℤ entry highest
    then record {
      action = runner;
      reason = mathematical_floor_runner;
      exit_now = false;
      protect_profit = true;
      runner_active = true;
      protection_price = nonzero floor;
      profit_lock_price = above floor entry;
      health_score = none;
    }
    else record {
      action = hold;
      reason = no_exit_condition;
      exit_now = false;
      protect_profit = false;
      runner_active = false;
      protection_price = nonzero floor;
      profit_lock_price = none;
      health_score = none;
    }

-- `entry is None or entry <= 0 or current is None or current <= 0`, and what follows.
unfoldable pub with_prices : Option ℤ → Option ℤ → Option ℤ → Option ℤ → Bool → Bool → Decision
unfolding decide positive_or_none floor_of highest_of
with_prices (some entry) (some current) highest floor blocked unsold =
    if not (positive entry) || not (positive current)
    then emergency invalid_or_zero_price (positive_or_none floor)
    else decide entry current (highest_of highest current) (floor_of floor) blocked unsold
with_prices _ _ highest floor blocked unsold =
    emergency invalid_or_zero_price (positive_or_none floor)

-- `evaluate_hybrid_exit`
unfoldable pub evaluate_hybrid_exit : Value → Value → Value → Value → Bool → Field Text → Decision
unfolding number with_prices unsellable
evaluate_hybrid_exit entry_price current_price highest_price static_sl_price blocked sellability =
    with_prices (number entry_price) (number current_price) (number highest_price)
      (number static_sl_price) blocked (unsellable sellability)
