-- ===== src/Provider/Resilience.antt =====
-- app/dex/provider_resilience.py: the kind of a provider's failure, by the text of its error, and
-- how long the provider then rests, in whole seconds.
use coinoskobi_dexbot.Common.{
  ℕ, max, Bool, false, ◌||◌, Option, none, some, List, [], ◌∷◌, if◌then◌else◌,
}
use coinoskobi_dexbot.Common.Int.{ℤ, pos_part}
use coinoskobi_dexbot.Common.Text.{Text, codes, text_eq, lower, upper, strip, contains}

-- The results of `classify_provider_failure`.
pub data Failure : Type 0 where
  unknown rate_limit quota forbidden timeout connection subscription other : Failure

unfoldable pub name_of : Failure → Text
name_of unknown = codes "UNKNOWN"
name_of rate_limit = codes "RATE_LIMIT"
name_of quota = codes "QUOTA"
name_of forbidden = codes "FORBIDDEN"
name_of timeout = codes "TIMEOUT"
name_of connection = codes "CONNECTION"
name_of subscription = codes "SUBSCRIPTION"
name_of other = codes "OTHER"

-- `any(marker in text for marker in markers)`
abbrev pub any_marker : List Text → Text → Bool
any_marker [] text = false
any_marker (marker ∷ markers) text = contains marker text || any_marker markers text

abbrev pub rate_markers : List Text
rate_markers =
    codes "429"
    ∷ codes "too many requests"
    ∷ codes "rate limit"
    ∷ codes "limit exceeded"
    ∷ codes "-32005"
    ∷ []

abbrev pub quota_markers : List Text
quota_markers =
    codes "quota"
    ∷ codes "credits exhausted"
    ∷ codes "credit exhausted"
    ∷ codes "compute units"
    ∷ codes "capacity exceeded"
    ∷ codes "request limit"
    ∷ codes "plan limit"
    ∷ []

abbrev pub forbidden_markers : List Text
forbidden_markers = codes "403" ∷ codes "forbidden" ∷ []

abbrev pub timeout_markers : List Text
timeout_markers = codes "timeout" ∷ codes "timed out" ∷ []

abbrev pub connection_markers : List Text
connection_markers = codes "connection" ∷ codes "disconnected" ∷ codes "connection reset" ∷ []

-- The tests on a text that is in lower case already.
unfoldable pub classify_text : Text → Failure
unfolding contains
classify_text [] = unknown
classify_text (c ∷ s) =
    let text = c ∷ s in
    if any_marker rate_markers text
    then rate_limit
    else if any_marker quota_markers text
    then quota
    else if any_marker forbidden_markers text
    then forbidden
    else if any_marker timeout_markers text
    then timeout
    else if any_marker connection_markers text
    then connection
    else if contains (codes "subscription") text
    then subscription
    else other

-- `classify_provider_failure`, on the text of the error, empty for a missing one.
unfoldable pub classify_provider_failure : Text → Failure
unfolding classify_text lower
classify_provider_failure error = classify_text (lower error)

-- `normalized in _PROVIDER_FAILURES`
abbrev pub failure_named : Text → Option Failure
failure_named s =
    if text_eq s (codes "TIMEOUT")
    then some timeout
    else if text_eq s (codes "RATE_LIMIT")
    then some rate_limit
    else if text_eq s (codes "QUOTA")
    then some quota
    else if text_eq s (codes "FORBIDDEN")
    then some forbidden
    else if text_eq s (codes "CONNECTION")
    then some connection
    else if text_eq s (codes "SUBSCRIPTION")
    then some subscription
    else none

-- `_failure_name`
unfoldable pub failure_name : Text → Failure
unfolding classify_provider_failure upper strip
failure_name error = elim (failure_named (upper (strip error))) [
  | some f ↦ f
  | none ↦ classify_provider_failure error
]

abbrev pub seconds_of : Failure → ℤ → ℤ → ℕ
seconds_of rate_limit quota_seconds transient_seconds = max 1 (pos_part quota_seconds)
seconds_of quota quota_seconds transient_seconds = max 1 (pos_part quota_seconds)
seconds_of forbidden quota_seconds transient_seconds = max 1 (pos_part quota_seconds)
seconds_of timeout quota_seconds transient_seconds = max 1 (pos_part transient_seconds)
seconds_of connection quota_seconds transient_seconds = max 1 (pos_part transient_seconds)
seconds_of subscription quota_seconds transient_seconds = max 1 (pos_part transient_seconds)
seconds_of _ quota_seconds transient_seconds = 0

-- `provider_cooldown_seconds`
unfoldable pub provider_cooldown_seconds : Text → ℤ → ℤ → ℕ
unfolding failure_name
provider_cooldown_seconds error quota_seconds transient_seconds =
    seconds_of (failure_name error) quota_seconds transient_seconds
