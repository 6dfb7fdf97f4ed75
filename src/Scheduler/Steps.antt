-- ===== src/Scheduler/Steps.antt =====
-- The bookkeeping of the executor loop of app/pipeline/work_scheduler.py, step by step.
use coinoskobi_dexbot.Common.{
  suc, ◌<◌, Bool, true, false, ◌≡◌, refl, ap, inl, inr, List, [], ◌∷◌, ◌++◌, length, length-append,
  arith, if◌then◌else◌, ◌&&◌, Bool-cases, if_cases,
}
use coinoskobi_dexbot.Common.Text.{text_Eq}
use coinoskobi_dexbot.Scheduler.Lanes.{Lane, warm, partial, cold, Counts, count_in, bump, Job}
use coinoskobi_dexbot.Scheduler.Drain.{same_lane}
use coinoskobi_dexbot.Scheduler.Pool.{
  Outcome, finished, cancelled, failed, Phase, testing, filling, waiting_done, left, Pool,
  not_cancelled, cancelled_of, is_nil, on_stop, at_test, submit, settle, Step, request_stop, test,
  submitted, ran_out, filled, nothing_to_wait, done, total_of,
}
use coinoskobi_dexbot.Scheduler.Accounts.{
  jobs_in, jobs_in-append, jobs_in-cancel, length-not_cancelled, sum_values-count, IsAccounted,
}

nil_of_is_nil : (js : List Job) → is_nil js ≡ true → js ≡ []
nil_of_is_nil [] e = refl
nil_of_is_nil (j ∷ js) e = cc

total_of-bump : (lane : Lane) (c : Counts) → total_of (bump lane c) ≡ suc (total_of c)
total_of-bump warm c = omega arith
total_of-bump partial c = omega arith
total_of-bump cold c = omega arith

count_in-bump :
    (lane other : Lane) (c : Counts)
    → count_in lane (bump other c)
      ≡ (if same_lane lane other then suc (count_in lane c) else count_in lane c)
count_in-bump warm other c = ground arith
count_in-bump partial other c = ground arith
count_in-bump cold other c = ground arith

lane_settled :
    (lane : Lane) (before : List Job) (j : Job) (after : List Job)
    → jobs_in lane (before ++ j ∷ after) ≡ (
        if same_lane lane j.lane
        then suc (jobs_in lane (before ++ after))
        else jobs_in lane (before ++ after))
lane_settled lane before j after =
    ground (arith, jobs_in-append lane before (j ∷ after), jobs_in-append lane before after)

length_settled :
    (before : List Job) (j : Job) (after : List Job)
    → length (before ++ j ∷ after) ≡ suc (length (before ++ after))
length_settled before j after =
    omega (arith, length-append before (j ∷ after), length-append before after)

module _ {jobs : List Job} where
  on_stop-IsAccounted :
      (caught : Job → Bool) (p : Pool)
      → IsAccounted jobs p
      → p.stopping ≡ true
      → IsAccounted jobs (on_stop caught p)
  unfolding on_stop
  on_stop-IsAccounted caught p a stop = record {
    workers = omega (arith, a.workers, length-not_cancelled caught p.futures);
    each_lane = λ lane. omega (
      arith,
      a.each_lane lane,
      jobs_in-cancel lane caught p.futures,
      jobs_in-append lane (cancelled_of caught p.futures) p.dropped,
    );
    processed_sum = a.processed_sum;
    failed_sum = a.failed_sum;
    chain_sum = a.chain_sum;
    chain_failed_sum = a.chain_failed_sum;
    exhausted_rows = λ _. inr stop;
    left_idle = λ e. elim (Bool-cases (is_nil (not_cancelled caught p.futures))) [
      | inl nil ↦ (nil_of_is_nil (not_cancelled caught p.futures) nil, refl)
      | inr some_left ↦ absurd (ground arith)
    ];
  }

  moved-IsAccounted :
      (phase : Phase) (p : Pool)
      → IsAccounted jobs p
      → (phase ≡ left → (p.futures ≡ []) × (p.exhausted ≡ true))
      → IsAccounted jobs (record p { phase = phase })
  moved-IsAccounted phase p a idle = record {
    workers = a.workers;
    each_lane = a.each_lane;
    processed_sum = a.processed_sum;
    failed_sum = a.failed_sum;
    chain_sum = a.chain_sum;
    chain_failed_sum = a.chain_failed_sum;
    exhausted_rows = a.exhausted_rows;
    left_idle = idle;
  }

  at_test-IsAccounted :
      (caught : Job → Bool) (p : Pool) → IsAccounted jobs p → IsAccounted jobs (at_test caught p)
  unfolding at_test
  at_test-IsAccounted caught p a =
      if_cases (IsAccounted jobs) (p.exhausted && is_nil p.futures)
        (λ e.
          moved-IsAccounted left p a (λ _. (nil_of_is_nil p.futures (ground arith), ground arith)))
        (λ _.
          if_cases (IsAccounted jobs) p.stopping (on_stop-IsAccounted caught p a)
            (λ _. moved-IsAccounted filling p a (λ e. cc)))

  submit-IsAccounted :
      (j : Job) (rest : List Job) (p : Pool)
      → IsAccounted jobs p
      → p.phase ≡ filling
      → p.exhausted ≡ false
      → length p.futures < p.max_workers
      → p.rows ≡ j ∷ rest
      → IsAccounted jobs (submit j rest p)
  unfolding submit
  submit-IsAccounted j rest p a at unfinished room e = record {
    workers = omega (arith, length-append p.futures (j ∷ []));
    each_lane = λ lane.
        ground
          (arith, a.each_lane lane, ap (jobs_in lane) e, jobs_in-append lane p.futures (j ∷ []));
    processed_sum = a.processed_sum;
    failed_sum = a.failed_sum;
    chain_sum = a.chain_sum;
    chain_failed_sum = a.chain_failed_sum;
    exhausted_rows = λ h. cc;
    left_idle = λ h. cc;
  }

  settle-IsAccounted :
      (outcome : Outcome) (before : List Job) (j : Job) (after : List Job) (p : Pool)
      → IsAccounted jobs p
      → p.futures ≡ before ++ j ∷ after
      → IsAccounted jobs (settle outcome (before ++ after) j p)
  unfolding settle
  settle-IsAccounted finished before j after p a e = record {
    workers = omega (arith, a.workers, ap length e, length_settled before j after);
    each_lane = λ lane. ground (
      arith,
      a.each_lane lane,
      ap (jobs_in lane) e,
      lane_settled lane before j after,
      count_in-bump lane j.lane p.lane_processed,
    );
    processed_sum = omega (arith, a.processed_sum, total_of-bump j.lane p.lane_processed);
    failed_sum = a.failed_sum;
    chain_sum = omega (arith, a.chain_sum, sum_values-count j.chain p.chain_processed);
    chain_failed_sum = a.chain_failed_sum;
    exhausted_rows = a.exhausted_rows;
    left_idle = λ h. cc;
  }
  settle-IsAccounted cancelled before j after p a e = record {
    workers = omega (arith, a.workers, ap length e, length_settled before j after);
    each_lane = λ lane.
        ground (arith, a.each_lane lane, ap (jobs_in lane) e, lane_settled lane before j after);
    processed_sum = a.processed_sum;
    failed_sum = a.failed_sum;
    chain_sum = a.chain_sum;
    chain_failed_sum = a.chain_failed_sum;
    exhausted_rows = a.exhausted_rows;
    left_idle = λ h. cc;
  }
  settle-IsAccounted failed before j after p a e = record {
    workers = omega (arith, a.workers, ap length e, length_settled before j after);
    each_lane = λ lane. ground (
      arith,
      a.each_lane lane,
      ap (jobs_in lane) e,
      lane_settled lane before j after,
      count_in-bump lane j.lane p.lane_failed,
    );
    processed_sum = a.processed_sum;
    failed_sum = omega (arith, a.failed_sum, total_of-bump j.lane p.lane_failed);
    chain_sum = a.chain_sum;
    chain_failed_sum = omega (arith, a.chain_failed_sum, sum_values-count j.chain p.chain_failed);
    exhausted_rows = a.exhausted_rows;
    left_idle = λ h. cc;
  }

  pub Step-IsAccounted : {p q : Pool} → Step p q → IsAccounted jobs p → IsAccounted jobs q
  Step-IsAccounted (request_stop p) a = record {
    workers = a.workers;
    each_lane = a.each_lane;
    processed_sum = a.processed_sum;
    failed_sum = a.failed_sum;
    chain_sum = a.chain_sum;
    chain_failed_sum = a.chain_failed_sum;
    exhausted_rows = λ _. inr refl;
    left_idle = a.left_idle;
  }
  Step-IsAccounted (test p caught at) a = at_test-IsAccounted caught p a
  Step-IsAccounted (submitted p j rest at unfinished going room e) a =
      submit-IsAccounted j rest p a at unfinished room e
  Step-IsAccounted (ran_out p at unfinished going room e) a = record {
    workers = a.workers;
    each_lane = a.each_lane;
    processed_sum = a.processed_sum;
    failed_sum = a.failed_sum;
    chain_sum = a.chain_sum;
    chain_failed_sum = a.chain_failed_sum;
    exhausted_rows = λ _. inl e;
    left_idle = λ h. cc;
  }
  Step-IsAccounted (filled p at full) a = moved-IsAccounted waiting_done p a (λ h. cc)
  Step-IsAccounted (nothing_to_wait p at e) a = moved-IsAccounted testing p a (λ h. cc)
  Step-IsAccounted (done p before j after outcome at e) a =
      settle-IsAccounted outcome before j after p a e

-- The number of workers never changes.
pub max_workers-Step : {p q : Pool} → Step p q → q.max_workers ≡ p.max_workers
unfolding at_test on_stop submit settle
max_workers-Step (request_stop p) = refl
max_workers-Step (test p caught at) = ground arith
max_workers-Step (submitted p j rest at unfinished going room e) = refl
max_workers-Step (ran_out p at unfinished going room e) = refl
max_workers-Step (filled p at full) = refl
max_workers-Step (nothing_to_wait p at e) = refl
max_workers-Step (done p before j after finished at e) = refl
max_workers-Step (done p before j after cancelled at e) = refl
max_workers-Step (done p before j after failed at e) = refl
