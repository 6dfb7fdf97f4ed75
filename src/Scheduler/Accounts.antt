-- ===== src/Scheduler/Accounts.antt =====
-- The bookkeeping of the executor loop of app/pipeline/work_scheduler.py, over every run.
use coinoskobi_dexbot.Common.{
  ℕ, suc, ◌+◌, ◌≤◌, Bool, true, ◌≡◌, refl, ◌⊎◌, List, [], ◌∷◌, ◌++◌, length, arith, if◌then◌else◌,
}
use coinoskobi_dexbot.Common.Dict.{Dict, get_or, insert}
use coinoskobi_dexbot.Common.Text.{Text, text_Eq}
use coinoskobi_dexbot.Scheduler.Lanes.{Lane, warm, partial, cold, count_in, Job}
use coinoskobi_dexbot.Scheduler.Drain.{same_lane}
use coinoskobi_dexbot.Scheduler.Pool.{
  left, Pool, new_pool, count_chain, not_cancelled, cancelled_of, total_of,
}

-- The jobs of a lane.
abbrev pub jobs_in : Lane → List Job → ℕ
jobs_in lane [] = 0
jobs_in lane (j ∷ js) = if same_lane lane j.lane then suc (jobs_in lane js) else jobs_in lane js

abbrev pub sum_values : Dict Text ℕ → ℕ
sum_values [] = 0
sum_values ((k, n) ∷ d) = n + sum_values d

pub jobs_in-append :
    (lane : Lane) (xs ys : List Job) → jobs_in lane (xs ++ ys) ≡ jobs_in lane xs + jobs_in lane ys
jobs_in-append lane [] ys = omega arith
jobs_in-append lane (x ∷ xs) ys = ground (arith, jobs_in-append lane xs ys)

pub length-jobs_in :
    (js : List Job) → length js ≡ jobs_in warm js + jobs_in partial js + jobs_in cold js
length-jobs_in [] = omega arith
length-jobs_in (j ∷ js) = ground (arith, length-jobs_in js)

pub jobs_in-cancel :
    (lane : Lane) (caught : Job → Bool) (js : List Job)
    → jobs_in lane (not_cancelled caught js) + jobs_in lane (cancelled_of caught js)
      ≡ jobs_in lane js
unfolding not_cancelled cancelled_of
jobs_in-cancel lane caught [] = omega arith
jobs_in-cancel lane caught (j ∷ js) = ground (arith, jobs_in-cancel lane caught js)

pub length-not_cancelled :
    (caught : Job → Bool) (js : List Job) → length (not_cancelled caught js) ≤ length js
unfolding not_cancelled
length-not_cancelled caught [] = omega arith
length-not_cancelled caught (j ∷ js) = ground (arith, length-not_cancelled caught js)

pub sum_values-count :
    (chain : Text) (d : Dict Text ℕ) → sum_values (count_chain chain d) ≡ suc (sum_values d)
sum_values-count chain d = sum_put (get_or chain 0 d) d refl
  where
    sum_put :
        (n : ℕ) (d : Dict Text ℕ)
        → get_or chain 0 d ≡ n
        → sum_values (insert chain (n + 1) d) ≡ suc (sum_values d)
    sum_put n [] e = omega arith
    sum_put n ((k, m) ∷ d) e = ground (arith, sum_put n d)

-- Where a job is: still to be submitted, running, processed, failed or dropped.
pub record IsAccounted (jobs : List Job) (p : Pool) : Type 0 where
  pub workers : length p.futures ≤ p.max_workers
  pub each_lane :
      (lane : Lane)
      → jobs_in lane p.rows
          + jobs_in lane p.futures
          + count_in lane p.lane_processed
          + count_in lane p.lane_failed
          + jobs_in lane p.dropped
        ≡ jobs_in lane jobs
  pub processed_sum : total_of p.lane_processed ≡ p.processed
  pub failed_sum : total_of p.lane_failed ≡ p.failed_count
  pub chain_sum : sum_values p.chain_processed ≡ p.processed
  pub chain_failed_sum : sum_values p.chain_failed ≡ p.failed_count
  pub exhausted_rows : p.exhausted ≡ true → (p.rows ≡ []) ⊎ (p.stopping ≡ true)
  pub left_idle : p.phase ≡ left → (p.futures ≡ []) × (p.exhausted ≡ true)

pub new_pool-IsAccounted :
    (n : ℕ) (stopping : Bool) (jobs : List Job) → IsAccounted jobs (new_pool n stopping jobs)
unfolding new_pool
new_pool-IsAccounted n stopping jobs = record {
  workers = omega arith;
  each_lane = λ lane. ground arith;
  processed_sum = refl;
  failed_sum = refl;
  chain_sum = refl;
  chain_failed_sum = refl;
  exhausted_rows = λ e. cc;
  left_idle = λ e. cc;
}
