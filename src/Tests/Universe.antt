-- ===== src/Tests/Universe.antt =====
-- The scheduler of app/universe/scheduler.py on small registries.
use coinoskobi_dexbot.Common.{
  ◌≤◌, ℕ, true, ◌≡◌, refl, inl, inr, none, some, Option, List, [], ◌∷◌, length, All, arith,
}
use coinoskobi_dexbot.Common.Text.{Text, codes}
use coinoskobi_dexbot.Universe.Registry.{
  cold, hot, new, existing, Pool, Snapshot, MarketState, Branch,
}
use coinoskobi_dexbot.Universe.Selection.{Scheduler, usdt, dex_v2, select_due}
use coinoskobi_dexbot.Universe.Observing.{run_once, complete, degraded, priority_due, run_priority}
use coinoskobi_dexbot.Universe.Choosing.{IsEligible, select_due_lem}
use coinoskobi_dexbot.Universe.Answers.{IsWhole, IsAnswer}
use coinoskobi_dexbot.Universe.Runs.{IsDone, run_once_lem}
use coinoskobi_dexbot.Universe.Display.{persist_display, display_of}
use mathlib.Core.Option
use coinoskobi_dexbot.Common.{◌<◌, ◌⊎◌, map}
use coinoskobi_dexbot.Common.Text.{strip, lower}
use coinoskobi_dexbot.Universe.Registry.{Display, is_sourced, record_observations}
use coinoskobi_dexbot.Universe.Observing.{max_batch, failed}
use coinoskobi_dexbot.Universe.Recording.{IsSingle, IsPaced}
use coinoskobi_dexbot.Universe.Priority.{run_priority_lem}

abbrev pool_of : Text → MarketState → Branch → Option ℕ → Option ℕ → Pool
pool_of address state branch latest next = record {
  chain = codes "bsc";
  dex = dex_v2;
  pool = address;
  token0 = some (codes "0xaa");
  token1 = some usdt;
  market_state = state;
  discovery_branch = branch;
  creation_block = 7;
  latest_snapshot_at = latest;
  next_observation_at = next;
}

-- A pool that was observed, and is due, and one that was not observed yet.
abbrev known : Pool
known = pool_of (codes "0xb1") hot existing (some 10) (some 90)

abbrev unseen : Pool
unseen = pool_of (codes "0xb2") cold new none none

abbrev scheduler : Scheduler
scheduler = record {
  pools = known ∷ unseen ∷ [];
  display = [];
  cold_seconds = 240;
  warm_seconds = 60;
  hot_seconds = 15;
  missing_retry_seconds = 60;
  prefer_depth = true;
  prefer_new_breadth = true;
}

abbrev snapshot : Snapshot
snapshot = record {
  chain = codes "bsc";
  dex = dex_v2;
  pool = codes "0xb1";
  source = codes "dexscreener";
  observed_at = some 100;
  base_token = [];
  quote_token = [];
  base_symbol = codes "AB";
  quote_symbol = codes "USDT";
  base_name = [];
  quote_name = [];
  display_name = [];
}

abbrev seen : List Pool → Option (List Snapshot)
seen due = some (snapshot ∷ [])

abbrev down : List Pool → Option (List Snapshot)
down due = none

selected : (select_due 100 30 scheduler).1 ≡ known ∷ []
unfolding select_due
selected = refl

named : priority_due 30 (codes " 0xB2 " ∷ codes "0xb2" ∷ []) scheduler ≡ unseen ∷ []
unfolding priority_due
named = refl

-- The breadth follows the depth, and an observed pool rests.
after_depth : (run_once 100 30 seen scheduler).1 ≡ complete 1 1 0
unfolding run_once strip
after_depth = refl

breadth_next : (run_once 100 30 down (run_once 100 30 seen scheduler).0).1 ≡ degraded 1
unfolding run_once strip
breadth_next = refl

single : IsSingle scheduler.pools
single = ((inr (refl, refl), (inl refl, tt)), ((inl refl, (inr (refl, refl), tt)), tt))

paced : IsPaced scheduler
paced = (omega arith, omega arith, omega arith, omega arith)

select_due_example :
    let due = (select_due 100 30 scheduler).1 in (length due ≤ 30) × All (IsEligible 100) due
select_due_example = select_due_lem 100 30 scheduler

-- More than a batch is refused.
beyond : run_once 100 31 seen scheduler ≡ (scheduler, failed)
unfolding run_once
beyond = refl

-- A pair is shown under its symbols; a snapshot without a source is an error.
shown :
    Option.map
      (λ (rows : List Display). map (λ (d : Display). d.display_name) rows)
      (persist_display (snapshot ∷ []) [])
    ≡ some (some (codes "AB / USDT") ∷ [])
unfolding persist_display strip lower
shown = refl

unsourced :
    record_observations (λ pool. 200) (record snapshot { source = [] } ∷ []) scheduler.pools ≡ none
unfolding record_observations strip
unsourced = refl

whole : IsWhole (known ∷ []) snapshot
unfolding is_sourced display_of strip lower
whole = record { asked = (known, inl refl, refl, refl, refl); sourced = refl; shown = (_, refl) }

answered_known : IsAnswer (select_due 100 30 scheduler).1 (seen (select_due 100 30 scheduler).1)
unfolding select_due
answered_known = (whole, tt)

run_once_example :
    ((1 ≤ 30)
      × (30 ≤ max_batch)
      × IsDone 100 (select_due 100 30 scheduler).1 (run_once 100 30 seen scheduler))
    ⊎ (((30 < 1) ⊎ (max_batch < 30)) × (run_once 100 30 seen scheduler ≡ (scheduler, failed)))
run_once_example = run_once_lem 100 30 seen scheduler paced single answered_known

run_priority_example :
    ((1 ≤ 30)
      × (30 ≤ max_batch)
      × (length (priority_due 30 (codes " 0xB2 " ∷ []) scheduler) ≤ 30)
      × IsDone 100
          (priority_due 30 (codes " 0xB2 " ∷ []) scheduler)
          (run_priority 100 30 (codes " 0xB2 " ∷ []) down scheduler))
    ⊎ (((30 < 1) ⊎ (max_batch < 30))
        × (run_priority 100 30 (codes " 0xB2 " ∷ []) down scheduler ≡ (scheduler, failed)))
run_priority_example = run_priority_lem 100 30 (codes " 0xB2 " ∷ []) down scheduler paced single tt
