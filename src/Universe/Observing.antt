-- ===== src/Universe/Observing.antt =====
-- `_observe_rows`, `run_once`, `run_priority` and `reschedule_for_state` of app/universe/scheduler.py.
-- What the snapshot client fetches is the environment's; a run that raises is `failed`.
use coinoskobi_dexbot.Common.{
  ℕ, ◌+◌, ◌*◌, Bool, true, false, ◌&&◌, ◌||◌, Option, none, some, List, [], ◌∷◌, if◌then◌else◌, leb,
  length, ◌++◌, nat_eq,
}
use coinoskobi_dexbot.Common.Text.{Text, text_eq, lower, strip}
use coinoskobi_dexbot.Universe.Registry.{
  MarketState, cold, warm, hot, Pool, Snapshot, Display, schedule_observations, record_observations,
}
use coinoskobi_dexbot.Universe.Display.{persist_display}
use coinoskobi_dexbot.Universe.Selection.{Scheduler, dex_v2, dex_v3, select, select_due}

abbrev pub micros : ℕ
micros = 1000000

-- `self.intervals[state]`
abbrev pub interval : MarketState → Scheduler → ℕ
interval cold s = s.cold_seconds
interval warm s = s.warm_seconds
interval hot s = s.hot_seconds

-- `due_by_pool`: the last row of a pool.
unfoldable pub row_of : Text → List Pool → Option Pool
row_of pool [] = none
row_of pool (row ∷ rows) = elim (row_of pool rows) [
  | some later ↦ some later
  | none ↦ if text_eq row.pool pool then some row else none
]

-- `next_times`, for the pools that are due.
unfoldable pub next_time : ℕ → List Pool → Scheduler → Text → ℕ
unfolding row_of
next_time now due s pool = elim (row_of pool due) [
  | none ↦ now
  | some row ↦ now + interval row.market_state s * micros
]

-- No snapshot is of a pool that was not asked for.
unfoldable pub all_asked : List Pool → List Snapshot → Bool
unfolding row_of
all_asked due [] = true
all_asked due (s ∷ snapshots) = elim (row_of s.pool due) [
  | none ↦ false
  | some row ↦ all_asked due snapshots
]

-- `row["pool"] not in returned`
unfoldable pub is_missing : List Snapshot → Pool → Bool
is_missing [] row = true
is_missing (s ∷ snapshots) row =
    let rest = is_missing snapshots row in if text_eq row.pool s.pool then false else rest

-- The states of a run, with its counts of requested, observed and missing pools.
pub data Observed : Type 0 where
  idle : Observed
  degraded : (requested : ℕ) → Observed
  complete : (requested seen missing : ℕ) → Observed
  failed : Observed

abbrev pub with_pools : Observed → Option (List Pool) → Scheduler → Scheduler × Observed
with_pools report none s = (s, failed)
with_pools report (some pools) s = (record s { pools = pools }, report)

-- The end of a run, with the display metadata as it is persisted, or an error of that.
unfoldable pub after_display :
    ℕ → List Pool → List Snapshot → Option (List Display) → Scheduler → Scheduler × Observed
unfolding is_missing schedule_observations
after_display now due snapshots none s = (s, failed)
after_display now due snapshots (some display) s =
    let missing = select (is_missing snapshots) due in
    with_pools (complete (length due) (length snapshots) (length missing))
      (schedule_observations (now + s.missing_retry_seconds * micros) missing s.pools)
      (record s { display = display })

-- The end of a run, with the rows as they are recorded.
unfoldable pub after_record :
    ℕ → List Pool → List Snapshot → Option (List Pool) → Scheduler → Scheduler × Observed
unfolding after_display persist_display
after_record now due snapshots none s = (s, failed)
after_record now due snapshots (some pools) s =
    after_display now due snapshots (persist_display snapshots s.display)
      (record s { pools = pools })

-- `_observe_rows`: `none` is a fetch that raises. A snapshot of another pool raises a `KeyError`.
unfoldable pub observe_rows :
    ℕ → List Pool → Option (List Snapshot) → Scheduler → Scheduler × Observed
unfolding after_record all_asked next_time record_observations
observe_rows now [] fetched s = (s, idle)
observe_rows now (row ∷ rows) none s =
    with_pools (degraded (length (row ∷ rows)))
      (schedule_observations (now + s.missing_retry_seconds * micros) (row ∷ rows) s.pools) s
observe_rows now (row ∷ rows) (some snapshots) s =
    if all_asked (row ∷ rows) snapshots
    then after_record now (row ∷ rows) snapshots
        (record_observations (next_time now (row ∷ rows) s) snapshots s.pools) s
    else (s, failed)

-- `DEXSCREENER_MAX_BATCH`
abbrev pub max_batch : ℕ
max_batch = 30

abbrev pub is_batch : ℕ → Bool
is_batch limit = leb 1 limit && leb limit max_batch

-- `run_once`
unfoldable pub run_once :
    ℕ → ℕ → (List Pool → Option (List Snapshot)) → Scheduler → Scheduler × Observed
unfolding select_due observe_rows
run_once now limit fetch s =
    if is_batch limit
    then (let (s', due) = select_due now limit s in observe_rows now due (fetch due) s')
    else (s, failed)

-- `reschedule_for_state`, for a known state: the next time, unless the row is not registered.
unfoldable pub reschedule_for_state : ℕ → Pool → MarketState → Scheduler → Scheduler × Option ℕ
unfolding schedule_observations
reschedule_for_state now row state s =
    let time = now + interval state s * micros in
    elim (schedule_observations time (row ∷ []) s.pools) [
      | none ↦ (s, none)
      | some pools ↦ (record s { pools = pools }, some time)
    ]

unfoldable pub is_in : Text → List Text → Bool
is_in pool [] = false
is_in pool (x ∷ xs) = text_eq x pool || is_in pool xs

-- `normalized` of `run_priority`: the pools so far, and the values that are left.
unfoldable pub normalized_from : ℕ → List Text → List Text → List Text
unfolding is_in lower strip
normalized_from limit pools [] = pools
normalized_from limit pools (value ∷ values) =
    let pool = lower (strip value) in
    let pools' =
      if nat_eq (length pool) 0 || is_in pool pools then pools else pools ++ (pool ∷ []) in
    let rest = normalized_from limit pools' values in
    if leb limit (length pools') then pools' else rest

-- The rows that `run_priority` reads.
unfoldable pub is_known : List Text → Pool → Bool
unfolding is_in
is_known pools row = (text_eq row.dex dex_v2 || text_eq row.dex dex_v3) && is_in row.pool pools

unfoldable pub rows_of : List Text → List Pool → List Pool
unfolding row_of
rows_of [] rows = []
rows_of (pool ∷ pools) rows = elim (row_of pool rows) [
  | none ↦ rows_of pools rows
  | some row ↦ row ∷ rows_of pools rows
]

-- The rows that `run_priority` asks for.
unfoldable pub priority_due : ℕ → List Text → Scheduler → List Pool
unfolding normalized_from is_known select rows_of
priority_due limit values s =
    let pools = normalized_from limit [] values in rows_of pools (select (is_known pools) s.pools)

-- `run_priority`
unfoldable pub run_priority :
    ℕ → ℕ → List Text → (List Pool → Option (List Snapshot)) → Scheduler → Scheduler × Observed
unfolding priority_due observe_rows
run_priority now limit values fetch s =
    if is_batch limit
    then (let due = priority_due limit values s in observe_rows now due (fetch due) s)
    else (s, failed)
