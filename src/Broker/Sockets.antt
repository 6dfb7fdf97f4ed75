-- ===== src/Broker/Sockets.antt =====
-- `ProviderBrokerWSSRuntime` of app/dex/provider_broker.py: `run` over its URLs. What a runtime of a
-- URL reports is the environment's, and so is when the stop is requested.
use coinoskobi_dexbot.Common.{
  ℕ, zero, suc, ◌+◌, ◌-◌, ◌≤◌, Bool, false, Option, none, some, List, [], ◌∷◌, length,
  if◌then◌else◌, nat_eq, arith, not,
}
use coinoskobi_dexbot.Common.Text.{Text}
use coinoskobi_dexbot.Row.{nonempty}
use coinoskobi_dexbot.Broker.State.{Role, primary, secondary, tertiary, quaternary, unique_urls}

-- What `run` reads of the status that a runtime returns.
pub record Report : Type 0 where
  pub last_error : Option Text
  pub accepted_count : ℕ

-- `delivered` is the sum of the accepted events, which the code does not keep.
pub record Sockets : Type 0 where
  pub urls : List Text
  pub active_provider : Role
  pub failover_count : ℕ
  pub last_error : Option Text
  pub last_status : Option Report
  pub delivered : ℕ

-- `__init__`, with the fallbacks that are given.
unfoldable pub new_sockets : Text → List Text → Sockets
unfolding unique_urls
new_sockets url fallbacks = record {
  urls = unique_urls (url ∷ fallbacks);
  active_provider = primary;
  failover_count = 0;
  last_error = none;
  last_status = none;
  delivered = 0;
}

-- `ROLES[index]`
abbrev pub role_of : ℕ → Role
role_of zero = primary
role_of (suc zero) = secondary
role_of (suc (suc zero)) = tertiary
role_of (suc (suc (suc n))) = quaternary

abbrev pub is_error : Option Text → Bool
is_error none = false
is_error (some error) = nonempty error

-- `remaining`, and whether it is used up.
abbrev pub less : ℕ → Option ℕ → Option ℕ
less accepted none = none
less accepted (some remaining) = some (remaining - accepted)

abbrev pub used_up : Option ℕ → Bool
used_up none = false
used_up (some remaining) = nat_eq remaining 0

-- The bookkeeping of a runtime that has ended.
unfoldable pub noted : ℕ → Report → Sockets → Sockets
noted index report w = record w {
  active_provider = role_of index;
  last_status = some report;
  last_error = report.last_error;
  delivered = w.delivered + report.accepted_count;
}

-- The loop of `run`, from an index on: whether the stop is set before and behind a runtime, and what
-- the runtime reports under a limit.
unfoldable pub run_from :
    (ℕ → Bool) → (ℕ → Bool) → (ℕ → Option ℕ → Report) → ℕ → List Text → Option ℕ → Sockets → Sockets
unfolding noted
run_from before behind runs index [] remaining w = w
run_from before behind runs index (url ∷ []) remaining w =
    if before index then w else noted index (runs index remaining) w
run_from before behind runs index (url ∷ next ∷ rest) remaining w =
    let report = runs index remaining in
    let w' = noted index report w in
    let more =
      run_from before behind runs (suc index) (next ∷ rest) (less report.accepted_count remaining)
        (record w' { failover_count = w'.failover_count + 1 }) in
    if before index
    then w
    else if behind index
    then w'
    else if used_up (less report.accepted_count remaining)
    then w'
    else if not (is_error report.last_error)
    then w'
    else more

unfoldable pub run :
    (ℕ → Bool) → (ℕ → Bool) → (ℕ → Option ℕ → Report) → Option ℕ → Sockets → Sockets
unfolding run_from
run before behind runs max_events w = run_from before behind runs 0 w.urls max_events w

run_from-delivered :
    (before behind : ℕ → Bool) (runs : ℕ → Option ℕ → Report) (index : ℕ) (urls : List Text)
    (remaining : ℕ) (w : Sockets)
    → ((i r : ℕ) → (runs i (some r)).accepted_count ≤ r)
    → ((run_from before behind runs index urls (some remaining) w).delivered
        ≤ w.delivered + remaining)
      × ((run_from before behind runs index urls (some remaining) w).failover_count
          ≤ w.failover_count + (length urls - 1))
unfolding run_from
run_from-delivered before behind runs index [] remaining w fits = (omega arith, omega arith)
run_from-delivered before behind runs index (url ∷ []) remaining w fits =
    ground (arith, fits index remaining)
run_from-delivered before behind runs index (url ∷ next ∷ rest) remaining w fits =
    let report = runs index (some remaining) in
    let w' = noted index report w in
    let w₁ = record w' { failover_count = w'.failover_count + 1 } in
    ground (
      arith,
      fits index remaining,
      run_from-delivered before behind runs (suc index) (next ∷ rest)
          (remaining - report.accepted_count) w₁ fits,
    )

-- When no runtime accepts more events than it is asked for, a run over several URLs accepts no more
-- events in total than were asked for, and fails over fewer times than it has URLs.
pub events_bounded :
    (before behind : ℕ → Bool) (runs : ℕ → Option ℕ → Report) (max_events : ℕ) (w : Sockets)
    → ((i r : ℕ) → (runs i (some r)).accepted_count ≤ r)
    → ((run before behind runs (some max_events) w).delivered ≤ w.delivered + max_events)
      × ((run before behind runs (some max_events) w).failover_count
          ≤ w.failover_count + (length w.urls - 1))
unfolding run
events_bounded before behind runs max_events w fits =
    run_from-delivered before behind runs 0 w.urls max_events w fits
