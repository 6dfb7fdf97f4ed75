-- ===== src/Row.antt =====
-- The candidate rows that the pipeline passes on (app/pipeline/candidate_queue.py,
-- app/pipeline/conveyor.py, app/pipeline/work_scheduler.py): the columns that the code reads, each
-- missing, null or given, and the rest as texts that are carried along. Texts are ASCII; the
-- numeric columns hold finite numbers, scaled to integers.
use coinoskobi_dexbot.Common.{Bool, true, false, Option, none, some, List, [], ◌∷◌, if◌then◌else◌}
use coinoskobi_dexbot.Common.Int.{ℤ, pos}
use coinoskobi_dexbot.Common.Text.{Text, upper, strip}
use coinoskobi_dexbot.Common.Dict.{Dict}

-- What `row.get(column)` finds.
pub data Field (A : Type 0) : Type 0 where
  missing null : Field A
  given : A → Field A

-- The label that the conveyor writes.
pub record Conveyor : Type 0 where
  pub ingress_lane : Field Text
  pub cache_state : Field Text
  pub token_cache : Field Text
  pub pair_cache : Field Text
  pub risk_cache : Field Text
  pub missing_analyzers : List Text

pub record Row : Type 0 where
  pub token : Field Text
  pub pool : Field Text
  pub chain : Field Text
  pub market_state : Field Text
  pub seismic_score : Field ℤ
  pub liquidity : Field ℤ
  pub volume_24h : Field ℤ
  pub volume24 : Field ℤ
  pub buys_24h : Field ℤ
  pub buys24 : Field ℤ
  pub identity : Field Text
  pub conveyor : Field Conveyor
  pub others : Dict Text Text

-- `bool(text)`
abbrev pub nonempty : Text → Bool
nonempty [] = false
nonempty (c ∷ s) = true

-- `bool(value)` of a text or None
abbrev pub truthy : Option Text → Bool
truthy none = false
truthy (some s) = nonempty s

-- `row.get(column) or default`
abbrev pub text_or : Field Text → Text → Text
text_or missing d = d
text_or null d = d
text_or (given s) d = if nonempty s then s else d

-- `row.get(column) or 0`
abbrev pub number_or_zero : Field ℤ → ℤ
number_or_zero (given n) = n
number_or_zero _ = pos 0

-- `row.get(column, row.get(other) or 0) or 0`
abbrev pub number_or_other : Field ℤ → Field ℤ → ℤ
number_or_other missing other = number_or_zero other
number_or_other null other = pos 0
number_or_other (given n) other = n

-- `str(row.get("market_state") or "").strip().upper()`
unfoldable pub market_state_of : Row → Text
unfolding upper strip
market_state_of row = upper (strip (text_or row.market_state []))
