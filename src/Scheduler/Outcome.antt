-- ===== src/Scheduler/Outcome.antt =====
-- What `process_queue` of app/pipeline/work_scheduler.py reports when its loop is left.
use coinoskobi_dexbot.Common.{
  ℕ, suc, ◌+◌, ◌≤◌, Bool, false, ◌≡◌, refl, sym, ap, ◌∙◌, inl, inr, some, List, [], ◌∷◌, ◌++◌, map,
  length, arith, if◌then◌else◌, some_eq,
}
use mathlib.Core.List
use mathlib.Core.List.{Perm}
use mathlib.Core.Path.{subst}
use mathlib.Core.List.Perm
use native.Mathlib.Bridge.{from_ℕ}
use coinoskobi_dexbot.Row.{Row}
use coinoskobi_dexbot.Scheduler.Lanes.{
  Lane, warm, partial, cold, count_in, Job, job_in, sort_rows, no_lanes, no_counts, ordered_rows,
}
use coinoskobi_dexbot.Scheduler.Drain.{same_lane, in_lane, IsOrdered, ordered_rows_lem}
use coinoskobi_dexbot.Scheduler.Pool.{Pool, left, new_pool, Run, begun, then_step, total_of, report}
use coinoskobi_dexbot.Scheduler.Accounts.{
  jobs_in, jobs_in-append, IsAccounted, new_pool-IsAccounted,
}
use coinoskobi_dexbot.Scheduler.Steps.{Step-IsAccounted, max_workers-Step}
use coinoskobi_dexbot.Scheduler.Reports.{IsReported, report_lem}

pub Run-IsAccounted :
    {jobs : List Job} {p q : Pool} → Run p q → IsAccounted jobs p → IsAccounted jobs q
Run-IsAccounted begun a = a
Run-IsAccounted (then_step run step) a = Step-IsAccounted step (Run-IsAccounted run a)

max_workers-Run : {p q : Pool} → Run p q → q.max_workers ≡ p.max_workers
max_workers-Run begun = refl
max_workers-Run (then_step run step) = max_workers-Step step ∙ max_workers-Run run

length-native : (rows : List Row) → from_ℕ (List.length rows) ≡ length rows
length-native [] = refl
length-native (row ∷ rows) = ap suc (length-native rows)

length-perm : (xs ys : List Row) → Perm xs ys → length xs ≡ length ys
length-perm xs ys p = sym (length-native xs) ∙ ap from_ℕ (Perm.length-eq p) ∙ length-native ys

jobs_in-map :
    (lane own : Lane) (rows : List Row)
    → jobs_in lane (map (job_in own) rows) ≡ (if same_lane lane own then length rows else 0)
jobs_in-map lane own [] = ground arith
jobs_in-map lane own (row ∷ rows) = ground (arith, jobs_in-map lane own rows)

-- The jobs of a lane are as many as its drained rows.
jobs_in-ordered :
    (lane : Lane) (rows : List Row) (jobs : List Job)
    → IsOrdered rows jobs
    → jobs_in lane jobs ≡ length (in_lane lane rows)
jobs_in-ordered lane rows jobs o = by_lane lane
  where
    w : List Job
    w = map (job_in warm) o.warm_rows

    p : List Job
    p = map (job_in partial) o.partial_rows

    c : List Job
    c = map (job_in cold) o.cold_rows

    parts : (l : Lane) → jobs_in l jobs ≡ jobs_in l w + jobs_in l p + jobs_in l c
    parts l =
        omega (arith, ap (jobs_in l) o.jobs_eq, jobs_in-append l (w ++ p) c, jobs_in-append l w p)

    by_lane : (l : Lane) → jobs_in l jobs ≡ length (in_lane l rows)
    by_lane warm = omega (
      arith,
      parts warm,
      jobs_in-map warm warm o.warm_rows,
      jobs_in-map warm partial o.partial_rows,
      jobs_in-map warm cold o.cold_rows,
      length-perm o.warm_rows (in_lane warm rows) o.warm_perm,
    )
    by_lane partial = omega (
      arith,
      parts partial,
      jobs_in-map partial warm o.warm_rows,
      jobs_in-map partial partial o.partial_rows,
      jobs_in-map partial cold o.cold_rows,
      length-perm o.partial_rows (in_lane partial rows) o.partial_perm,
    )
    by_lane cold = omega (
      arith,
      parts cold,
      jobs_in-map cold warm o.warm_rows,
      jobs_in-map cold partial o.partial_rows,
      jobs_in-map cold cold o.cold_rows,
      length-perm o.cold_rows (in_lane cold rows) o.cold_perm,
    )

-- What the sorted rows are submitted as, by the loop that `p` ends.
module _ (rows : List Row) (max_workers : ℕ) (stopping : Bool) (p : Pool) (jobs : List Job)
    (ordered : ordered_rows (sort_rows rows no_lanes no_counts).0 ≡ some jobs)
    (run : Run (new_pool max_workers stopping jobs) p) where
  accounted : IsAccounted jobs p
  accounted = Run-IsAccounted run (new_pool-IsAccounted max_workers stopping jobs)

  inputs : (lane : Lane) → jobs_in lane jobs ≡ count_in lane (sort_rows rows no_lanes no_counts).1
  inputs lane =
      let (js, e, is, counted) = ordered_rows_lem rows in
      let same : js ≡ jobs = some_eq (sym e ∙ ordered) in
      subst (λ l. jobs_in lane l ≡ count_in lane (sort_rows rows no_lanes no_counts).1) same
        (jobs_in-ordered lane rows js is ∙ sym (counted lane))

  counted :
      (lane : Lane)
      → count_in lane (sort_rows rows no_lanes no_counts).1 ≡ length (in_lane lane rows)
  counted lane = let (_, _, _, c) = ordered_rows_lem rows in c lane

  -- However the rows are submitted, finished, failed or cancelled, and whenever a stop comes: when
  -- the loop is left, the report accounts for every drained row, in total and in each lane, whose
  -- input is the number of its drained rows; its numbers by lane and by chain add up to its totals.
  pub process_queue_report :
      (pending : ℕ)
      → p.phase ≡ left
      → IsReported rows
          (sort_rows rows no_lanes no_counts).1
          p
          (report (sort_rows rows no_lanes no_counts).1 pending p)
  process_queue_report pending at_end =
      report_lem rows jobs (sort_rows rows no_lanes no_counts).1 pending p accounted at_end inputs
        counted

  -- A loop that is left without a stop, with no future dropped, has processed or failed every
  -- drained row and skipped none.
  pub process_queue_complete :
      (pending : ℕ)
      → p.phase ≡ left
      → p.stopping ≡ false
      → p.dropped ≡ []
      → ((report (sort_rows rows no_lanes no_counts).1 pending p).skipped ≡ 0)
        × ((report (sort_rows rows no_lanes no_counts).1 pending p).processed
              + (report (sort_rows rows no_lanes no_counts).1 pending p).failed
            ≡ total_of (sort_rows rows no_lanes no_counts).1)
  process_queue_complete pending at_end going kept =
      let r = process_queue_report pending at_end in
      elim (accounted.exhausted_rows (accounted.left_idle at_end).1) [
        | inl none_left ↦
            let e : (report (sort_rows rows no_lanes no_counts).1 pending p).skipped ≡ 0 =
              omega (arith, r.skipped_eq, ap length none_left, ap length kept) in
            (e, omega (arith, r.all_rows, e))
        | inr stop ↦ absurd (ground arith)
      ]

  -- At every point of a run no more futures are in flight than there are workers.
  pub futures_bounded : length p.futures ≤ max_workers
  unfolding new_pool
  futures_bounded = omega (arith, accounted.workers, max_workers-Run run)
