-- ===== src/Tests/Scheduler.antt =====
-- `WorkScheduler` of app/pipeline/work_scheduler.py on two rows: a run that is stopped after the
-- first one, and a run that processes one and loses the other.
use coinoskobi_dexbot.Common.{
  ◌*◌, ◌⊎◌, ◌+◌, ◌≤◌, Bool, true, false, ◌≡◌, refl, inr, some, List, [], ◌∷◌, length, arith,
}
use mathlib.Core.Option
use coinoskobi_dexbot.Common.Text.{Text, codes, text_Eq}
use coinoskobi_dexbot.Row.{Row, missing, null, given}
use coinoskobi_dexbot.Scheduler.Lanes.{
  Lane, cold, Chains, Job, job_in, sort_rows, no_lanes, no_counts, place, lane_of, row_chain,
  round_robin_rows, ordered_rows, count_in,
}
use coinoskobi_dexbot.Scheduler.Drain.{in_lane, IsOrdered, ordered_rows_lem}
use coinoskobi_dexbot.Scheduler.Pool.{
  Pool, Phase, left, finished, failed, new_pool, at_test, submit, settle, request_stop, test,
  submitted, ran_out, filled, nothing_to_wait, done, Run, begun, then_step, report, total_of,
}
use coinoskobi_dexbot.Scheduler.Ending.{loop_steps, Goes, process_queue_ends}
use coinoskobi_dexbot.Scheduler.Reports.{IsReported}
use coinoskobi_dexbot.Scheduler.Outcome.{process_queue_report, process_queue_complete}

abbrev on_chain : Text → Text → Row
on_chain token chain = record {
  token = given token;
  pool = missing;
  chain = given chain;
  market_state = missing;
  seismic_score = missing;
  liquidity = missing;
  volume_24h = missing;
  volume24 = missing;
  buys_24h = missing;
  buys24 = missing;
  identity = missing;
  conveyor = null;
  others = [];
}

abbrev row_a : Row
row_a = on_chain (codes "0xa") (codes "bsc")

abbrev row_b : Row
row_b = on_chain (codes "0xb") (codes "bsc")

abbrev row_c : Row
row_c = on_chain (codes "0xc") (codes "base")

-- Two rows on one chain and one on another: the chains take turns.
abbrev two_chains : Chains
two_chains = (codes "bsc", row_a ∷ row_b ∷ []) ∷ (codes "base", row_c ∷ []) ∷ []

chains_take_turns : round_robin_rows two_chains ≡ some (row_a ∷ row_c ∷ row_b ∷ [])
unfolding round_robin_rows
chains_take_turns = refl

abbrev drained : List Row
drained = row_a ∷ row_c ∷ []

ordered_rows_example :
    let (lanes, counts) = sort_rows drained no_lanes no_counts in
    (jobs : List Job) × (ordered_rows lanes ≡ some jobs)
    × IsOrdered drained jobs
    × ((lane : Lane) → count_in lane counts ≡ length (in_lane lane drained))
ordered_rows_example = ordered_rows_lem drained

abbrev job_a : Job
job_a = job_in cold row_a

abbrev job_c : Job
job_c = job_in cold row_c

abbrev jobs : List Job
jobs = job_a ∷ job_c ∷ []

jobs_ordered : ordered_rows (sort_rows drained no_lanes no_counts).0 ≡ some jobs
unfolding ordered_rows sort_rows place lane_of row_chain Option.bind
jobs_ordered = refl

-- No future can be cancelled.
abbrev too_late : Job → Bool
too_late j = false

abbrev p0 : Pool
p0 = new_pool 1 false jobs

abbrev p1 : Pool
p1 = at_test too_late p0

abbrev p2 : Pool
p2 = submit job_a (job_c ∷ []) p1

abbrev p3 : Pool
p3 = record p2 { phase = Phase.waiting_done }

one_submitted : Run p0 p3
unfolding new_pool at_test submit
one_submitted =
    then_step
      (then_step (then_step begun (test p0 too_late refl))
        (submitted p1 job_a (job_c ∷ []) refl refl refl (omega arith) refl))
      (filled p2 refl (inr (inr (omega arith))))

-- The stop comes while the first row is at work.
abbrev s4 : Pool
s4 = record p3 { stopping = true }

abbrev s5 : Pool
s5 = settle finished [] job_a s4

abbrev s6 : Pool
s6 = at_test too_late s5

stopped-Run : Run p0 s6
unfolding new_pool at_test submit settle
stopped-Run =
    then_step
      (then_step (then_step one_submitted (request_stop p3))
        (done s4 [] job_a [] finished refl refl))
      (test s5 too_late refl)

stopped_left : s6.phase ≡ left
unfolding new_pool at_test submit settle
stopped_left = refl

one_row_skipped : (report (sort_rows drained no_lanes no_counts).1 0 s6).skipped ≡ 1
unfolding new_pool at_test submit settle report sort_rows lane_of place
one_row_skipped = refl

process_queue_report_example :
    IsReported drained
      (sort_rows drained no_lanes no_counts).1
      s6
      (report (sort_rows drained no_lanes no_counts).1 0 s6)
process_queue_report_example =
    process_queue_report drained 1 false s6 jobs jobs_ordered stopped-Run 0 stopped_left

-- Without a stop the second row is submitted as well.
abbrev c4 : Pool
c4 = settle finished [] job_a p3

abbrev c5 : Pool
c5 = at_test too_late c4

abbrev c6 : Pool
c6 = submit job_c [] c5

abbrev c7 : Pool
c7 = record c6 { phase = Phase.waiting_done }

abbrev c8 : Pool
c8 = settle failed [] job_c c7

abbrev c9 : Pool
c9 = at_test too_late c8

abbrev c10 : Pool
c10 = record c9 { exhausted = true; phase = Phase.waiting_done }

abbrev c11 : Pool
c11 = record c10 { phase = Phase.testing }

abbrev c12 : Pool
c12 = at_test too_late c11

both_submitted : Run p0 c7
unfolding new_pool at_test submit settle
both_submitted =
    then_step
      (then_step
        (then_step (then_step one_submitted (done p3 [] job_a [] finished refl refl))
          (test c4 too_late refl))
        (submitted c5 job_c [] refl refl refl (omega arith) refl))
      (filled c6 refl (inr (inr (omega arith))))

complete-Run : Run p0 c12
unfolding new_pool at_test submit settle
complete-Run =
    then_step
      (then_step
        (then_step
          (then_step (then_step both_submitted (done c7 [] job_c [] failed refl refl))
            (test c8 too_late refl))
          (ran_out c9 refl refl refl (omega arith) refl))
        (nothing_to_wait c10 refl refl))
      (test c11 too_late refl)

complete_left : (c12.phase ≡ left) × (c12.stopping ≡ false) × (c12.dropped ≡ [])
unfolding new_pool at_test submit settle
complete_left = (refl, refl, refl)

process_queue_complete_example :
    let r = report (sort_rows drained no_lanes no_counts).1 0 c12 in
    (r.skipped ≡ 0) × (r.processed + r.failed ≡ total_of (sort_rows drained no_lanes no_counts).1)
process_queue_complete_example =
    process_queue_complete drained 1 false c12 jobs jobs_ordered complete-Run 0 complete_left.0
      complete_left.1 complete_left.2

process_queue_ends_example :
    (loop_steps complete-Run ≤ 7 * length jobs + 6) × ((c12.phase ≡ left) ⊎ Goes c12)
process_queue_ends_example = process_queue_ends 1 false jobs (omega arith) complete-Run
