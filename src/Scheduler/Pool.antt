-- ===== src/Scheduler/Pool.antt =====
-- `process_queue` of app/pipeline/work_scheduler.py after the rows are drained: the executor loop as
-- a step relation. The thread pool, the workers and the stop event are the environment, which
-- chooses when the stop is requested, which futures a cancel still catches, and which future is done
-- next and how.
use coinoskobi_dexbot.Common.{
  ℕ, ◌+◌, ◌-◌, ◌<◌, ◌≤◌, Bool, true, false, ◌≡◌, List, [], ◌∷◌, ◌++◌, length, if◌then◌else◌, ◌&&◌,
  ◌⊎◌,
}
use coinoskobi_dexbot.Common.Dict.{Dict, get_or, insert}
use coinoskobi_dexbot.Common.Text.{Text, text_Eq}
use coinoskobi_dexbot.Scheduler.Lanes.{
  Lane, warm, partial, cold, Counts, count_in, bump, no_counts, Job,
}

-- How a worker ends: a result, `WorkSchedulerCancelled`, or another exception.
pub data Outcome : Type 0 where
  finished cancelled failed : Outcome

-- Where the loop stands: at its test, in the loop that submits, before the wait, or behind it.
pub data Phase : Type 0 where
  testing filling waiting_done left : Phase

pub record Pool : Type 0 where
  pub max_workers : ℕ
  pub stopping : Bool
  pub phase : Phase
  pub rows : List Job
  pub futures : List Job
  pub exhausted : Bool
  pub processed : ℕ
  pub failed_count : ℕ
  pub lane_processed : Counts
  pub lane_failed : Counts
  pub chain_processed : Dict Text ℕ
  pub chain_failed : Dict Text ℕ
  -- The futures that were cancelled or ended by a cancellation: the code forgets them.
  pub dropped : List Job

unfoldable pub new_pool : ℕ → Bool → List Job → Pool
new_pool max_workers stopping rows = record {
  max_workers = max_workers;
  stopping = stopping;
  phase = testing;
  rows = rows;
  futures = [];
  exhausted = false;
  processed = 0;
  failed_count = 0;
  lane_processed = no_counts;
  lane_failed = no_counts;
  chain_processed = [];
  chain_failed = [];
  dropped = [];
}

-- `d[chain] = d.get(chain, 0) + 1`
abbrev pub count_chain : Text → Dict Text ℕ → Dict Text ℕ
count_chain chain d = insert chain (get_or chain 0 d + 1) d

-- The futures whose `cancel()` fails, and those that it catches.
unfoldable pub not_cancelled : (Job → Bool) → List Job → List Job
not_cancelled caught [] = []
not_cancelled caught (j ∷ js) =
    let rest = not_cancelled caught js in if caught j then rest else j ∷ rest

unfoldable pub cancelled_of : (Job → Bool) → List Job → List Job
cancelled_of caught [] = []
cancelled_of caught (j ∷ js) =
    let rest = cancelled_of caught js in if caught j then j ∷ rest else rest

abbrev pub is_nil {ℓ} : {A : Type ℓ} → List A → Bool
is_nil [] = true
is_nil (x ∷ xs) = false

-- What a set stop event does at the top of the loop: nothing more is submitted, and the futures
-- that can be cancelled are.
unfoldable pub on_stop : (Job → Bool) → Pool → Pool
unfolding not_cancelled cancelled_of
on_stop caught p =
    let kept = not_cancelled caught p.futures in
    record p {
      exhausted = true;
      futures = kept;
      dropped = cancelled_of caught p.futures ++ p.dropped;
      phase = if is_nil kept then left else filling;
    }

-- The loop's test and its first statement.
unfoldable pub at_test : (Job → Bool) → Pool → Pool
unfolding on_stop
at_test caught p =
    if p.exhausted && is_nil p.futures
    then record p { phase = left }
    else if p.stopping
    then on_stop caught p
    else record p { phase = filling }

-- `executor.submit` of the next row.
unfoldable pub submit : Job → List Job → Pool → Pool
submit j rest p = record p { rows = rest; futures = p.futures ++ j ∷ [] }

-- `futures.pop(done)` and what follows, by how the worker ended.
unfoldable pub settle : Outcome → List Job → Job → Pool → Pool
settle finished kept j p = record p {
  futures = kept;
  phase = testing;
  processed = p.processed + 1;
  lane_processed = bump j.lane p.lane_processed;
  chain_processed = count_chain j.chain p.chain_processed;
}
settle cancelled kept j p = record p { futures = kept; phase = testing; dropped = j ∷ p.dropped }
settle failed kept j p = record p {
  futures = kept;
  phase = testing;
  failed_count = p.failed_count + 1;
  lane_failed = bump j.lane p.lane_failed;
  chain_failed = count_chain j.chain p.chain_failed;
}

-- The inner loop's condition does not hold.
abbrev pub IsFilled : Pool → Type 0
IsFilled p = (p.exhausted ≡ true) ⊎ (p.stopping ≡ true) ⊎ (p.max_workers ≤ length p.futures)

-- One step of the loop, or a call of `request_stop` by another thread.
pub data Step : Pool → Pool → Type 0 where
  request_stop : (p : Pool) → Step p (record p { stopping = true })
  test : (p : Pool) (caught : Job → Bool) → p.phase ≡ testing → Step p (at_test caught p)
  submitted :
      (p : Pool) (j : Job) (rest : List Job)
      → p.phase ≡ filling
      → p.exhausted ≡ false
      → p.stopping ≡ false
      → length p.futures < p.max_workers
      → p.rows ≡ j ∷ rest
      → Step p (submit j rest p)
  ran_out :
      (p : Pool)
      → p.phase ≡ filling
      → p.exhausted ≡ false
      → p.stopping ≡ false
      → length p.futures < p.max_workers
      → p.rows ≡ []
      → Step p (record p { exhausted = true; phase = waiting_done })
  filled : (p : Pool) → p.phase ≡ filling → IsFilled p → Step p (record p { phase = waiting_done })
  nothing_to_wait :
      (p : Pool) → p.phase ≡ waiting_done → p.futures ≡ [] → Step p (record p { phase = testing })
  done :
      (p : Pool) (before : List Job) (j : Job) (after : List Job) (outcome : Outcome)
      → p.phase ≡ waiting_done
      → p.futures ≡ before ++ j ∷ after
      → Step p (settle outcome (before ++ after) j p)

pub data Run (p : Pool) : Pool → Type 0 where
  begun : Run p p
  then_step : {q r : Pool} → Run p q → Step q r → Run p r

-- The result of `process_queue`, from the counts of the drain and the end of the loop.
pub record LaneReport : Type 0 where
  pub input : ℕ
  pub lane_done : ℕ
  pub lane_lost : ℕ

pub record Report : Type 0 where
  pub processed : ℕ
  pub failed : ℕ
  pub pending : ℕ
  pub stopped : Bool
  pub skipped : ℕ
  pub warm_report : LaneReport
  pub partial_report : LaneReport
  pub cold_report : LaneReport
  pub chains_processed : Dict Text ℕ
  pub chains_failed : Dict Text ℕ

abbrev pub total_of : Counts → ℕ
total_of c = c.warm_count + c.partial_count + c.cold_count

abbrev pub lane_report : Lane → Counts → Pool → LaneReport
lane_report lane counts p = record {
  input = count_in lane counts;
  lane_done = count_in lane p.lane_processed;
  lane_lost = count_in lane p.lane_failed;
}

-- `max(0, total_input - processed - failed)` is the subtraction that stops at 0.
unfoldable pub report : Counts → ℕ → Pool → Report
report counts pending p = record {
  processed = p.processed;
  failed = p.failed_count;
  pending = pending;
  stopped = p.stopping;
  skipped = total_of counts - p.processed - p.failed_count;
  warm_report = lane_report warm counts p;
  partial_report = lane_report partial counts p;
  cold_report = lane_report cold counts p;
  chains_processed = p.chain_processed;
  chains_failed = p.chain_failed;
}
