-- ===== src/Scheduler/Reports.antt =====
-- The report of `process_queue` of app/pipeline/work_scheduler.py.
use coinoskobi_dexbot.Common.{ℕ, ◌+◌, ◌≡◌, refl, ap, ◌∙◌, List, length, arith}
use coinoskobi_dexbot.Row.{Row}
use coinoskobi_dexbot.Scheduler.Lanes.{Lane, warm, partial, cold, Counts, count_in, Job}
use coinoskobi_dexbot.Scheduler.Drain.{in_lane}
use coinoskobi_dexbot.Scheduler.Pool.{Pool, left, total_of, report, Report, LaneReport}
use coinoskobi_dexbot.Scheduler.Accounts.{jobs_in, sum_values, length-jobs_in, IsAccounted}

-- What a report says of a lane.
unfoldable pub report_of : Lane → Report → LaneReport
report_of warm r = r.warm_report
report_of partial r = r.partial_report
report_of cold r = r.cold_report

-- What the report of a finished run says of the drained rows.
pub record IsReported (rows : List Row) (counts : Counts) (p : Pool) (r : Report) : Type 0 where
  -- Processed, failed and skipped rows together are the drained ones.
  pub all_rows : r.processed + r.failed + r.skipped ≡ total_of counts
  -- Skipped are the rows that were never submitted and the futures that were cancelled.
  pub skipped_eq : r.skipped ≡ length p.rows + length p.dropped
  -- The input of a lane is the number of its drained rows, and each of them is done, lost, never
  -- submitted or cancelled.
  pub lane_input : (lane : Lane) → (report_of lane r).input ≡ length (in_lane lane rows)
  pub each_lane :
      (lane : Lane)
      → (report_of lane r).lane_done
          + (report_of lane r).lane_lost
          + jobs_in lane p.rows
          + jobs_in lane p.dropped
        ≡ (report_of lane r).input
  -- The lanes add up to the totals, and so do the chains.
  pub by_lane :
      ((report_of warm r).lane_done + (report_of partial r).lane_done + (report_of cold r).lane_done
        ≡ r.processed)
      × ((report_of warm r).lane_lost
            + (report_of partial r).lane_lost
            + (report_of cold r).lane_lost
          ≡ r.failed)
  pub by_chain :
      (sum_values r.chains_processed ≡ r.processed) × (sum_values r.chains_failed ≡ r.failed)

reported_input :
    (lane : Lane) (counts : Counts) (pending : ℕ) (p : Pool)
    → (report_of lane (report counts pending p)).input ≡ count_in lane counts
unfolding report report_of
reported_input warm counts pending p = refl
reported_input partial counts pending p = refl
reported_input cold counts pending p = refl

reported_done :
    (lane : Lane) (counts : Counts) (pending : ℕ) (p : Pool)
    → (report_of lane (report counts pending p)).lane_done ≡ count_in lane p.lane_processed
unfolding report report_of
reported_done warm counts pending p = refl
reported_done partial counts pending p = refl
reported_done cold counts pending p = refl

reported_lost :
    (lane : Lane) (counts : Counts) (pending : ℕ) (p : Pool)
    → (report_of lane (report counts pending p)).lane_lost ≡ count_in lane p.lane_failed
unfolding report report_of
reported_lost warm counts pending p = refl
reported_lost partial counts pending p = refl
reported_lost cold counts pending p = refl

-- The numbers of a report, from the bookkeeping.
pub report_lem :
    (rows : List Row) (jobs : List Job) (counts : Counts) (pending : ℕ) (p : Pool)
    → IsAccounted jobs p
    → p.phase ≡ left
    → ((lane : Lane) → jobs_in lane jobs ≡ count_in lane counts)
    → ((lane : Lane) → count_in lane counts ≡ length (in_lane lane rows))
    → IsReported rows counts p (report counts pending p)
unfolding report report_of
report_lem rows jobs counts pending p a at_end inputs counted =
    let idle = a.left_idle at_end in
    let lanes = λ (l : Lane). a.each_lane l ∙ inputs l in
    let none_running = ap length idle.0 in
    let running = length-jobs_in p.futures in
    let total : length p.rows + length p.dropped + p.processed + p.failed_count ≡ total_of counts =
      omega (
        arith,
        lanes warm,
        lanes partial,
        lanes cold,
        none_running,
        running,
        a.processed_sum,
        a.failed_sum,
        length-jobs_in p.rows,
        length-jobs_in p.dropped,
      ) in
    record {
      all_rows = omega (arith, total);
      skipped_eq = omega (arith, total);
      lane_input = λ l. reported_input l counts pending p ∙ counted l;
      each_lane = λ l. omega (
        arith,
        lanes l,
        ap (jobs_in l) idle.0,
        reported_input l counts pending p,
        reported_done l counts pending p,
        reported_lost l counts pending p,
      );
      by_lane = (a.processed_sum, a.failed_sum);
      by_chain = (a.chain_sum, a.chain_failed_sum);
    }
