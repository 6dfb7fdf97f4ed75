-- ===== src/Scheduler/Ending.antt =====
-- Whether the executor loop of app/pipeline/work_scheduler.py comes to its end: a rank of its states
-- for the steps of the loop, and the steps that each state has.
use coinoskobi_dexbot.Common.{
  ℕ, suc, ◌+◌, ◌*◌, ◌≤◌, ◌<◌, Bool, true, false, ◌≡◌, refl, ap, ◌∙◌, ◌⊎◌, inl, inr, List, [], ◌∷◌,
  ◌++◌, length, length-append, arith, nat_eq, ltb, ltb→lt, ◌||◌, ◌&&◌, if_cases, Bool-cases,
}
use coinoskobi_dexbot.Scheduler.Lanes.{Job}
use coinoskobi_dexbot.Scheduler.Pool.{
  Pool, Phase, testing, filling, waiting_done, left, Outcome, finished, cancelled, failed, new_pool,
  not_cancelled, is_nil, on_stop, at_test, submit, settle, Step, request_stop, test, submitted,
  ran_out, filled, nothing_to_wait, done, Run, begun, then_step,
}
use coinoskobi_dexbot.Scheduler.Accounts.{length-not_cancelled}
use coinoskobi_dexbot.Scheduler.Steps.{max_workers-Step}

-- How far a phase is from the next wait, by whether no future is in flight and whether nothing more
-- will be submitted.
abbrev phase_rank : Phase → Bool → Bool → ℕ
phase_rank left idle ending = 0
phase_rank testing true true = 1
phase_rank testing true false = 6
phase_rank testing false ending = 3
phase_rank filling true ending = 5
phase_rank filling false ending = 2
phase_rank waiting_done true ending = 2
phase_rank waiting_done false ending = 1

abbrev rank : Pool → ℕ
rank p =
    7 * length p.rows
    + 6 * length p.futures
    + phase_rank p.phase (nat_eq (length p.futures) 0) (p.exhausted || p.stopping)

is_nil-length : (js : List Job) → is_nil js ≡ nat_eq (length js) 0
is_nil-length [] = refl
is_nil-length (j ∷ js) = ground arith

-- A step of the loop, and not a request to stop.
abbrev pub is_loop : {p q : Pool} → Step p q → Bool
is_loop (request_stop p) = false
is_loop (test p caught at) = true
is_loop (submitted p j rest at unfinished going room e) = true
is_loop (ran_out p at unfinished going room e) = true
is_loop (filled p at full) = true
is_loop (nothing_to_wait p at e) = true
is_loop (done p before j after outcome at e) = true

abbrev cost : Bool → ℕ
cost true = 1
cost false = 0

-- At the wait there is a future, or nothing more will be submitted.
abbrev IsFed : Pool → Type 0
IsFed p = p.phase ≡ waiting_done → ((p.exhausted || p.stopping) ≡ true) ⊎ (1 ≤ length p.futures)

on_stop-rank :
    (caught : Job → Bool) (p : Pool)
    → p.phase ≡ testing
    → p.stopping ≡ true
    → suc (rank (on_stop caught p)) ≤ rank p
unfolding on_stop
on_stop-rank caught p at stop =
    ground
      (arith, length-not_cancelled caught p.futures, is_nil-length (not_cancelled caught p.futures))

at_test-rank :
    (caught : Job → Bool) (p : Pool) → p.phase ≡ testing → suc (rank (at_test caught p)) ≤ rank p
unfolding at_test
at_test-rank caught p at =
    if_cases (λ r. suc (rank r) ≤ rank p) (p.exhausted && is_nil p.futures)
      (λ e. ground (arith, is_nil-length p.futures))
      (λ e.
        if_cases (λ r. suc (rank r) ≤ rank p) p.stopping (λ s. on_stop-rank caught p at s)
          (λ s. ground (arith, is_nil-length p.futures)))

submit-rank :
    (j : Job) (rest : List Job) (p : Pool)
    → p.phase ≡ filling
    → p.rows ≡ j ∷ rest
    → suc (rank (submit j rest p)) ≤ rank p
unfolding submit
submit-rank j rest p at e = ground (arith, ap length e, length-append p.futures (j ∷ []))

settle-rank :
    (outcome : Outcome) (before after : List Job) (j : Job) (p : Pool)
    → p.phase ≡ waiting_done
    → p.futures ≡ before ++ j ∷ after
    → suc (rank (settle outcome (before ++ after) j p)) ≤ rank p
unfolding settle
settle-rank finished before after j p at e =
    ground (arith, ap length e, length-append before (j ∷ after), length-append before after)
settle-rank cancelled before after j p at e =
    ground (arith, ap length e, length-append before (j ∷ after), length-append before after)
settle-rank failed before after j p at e =
    ground (arith, ap length e, length-append before (j ∷ after), length-append before after)

-- A request to stop brings no phase further away.
phase_rank-stop :
    (ph : Phase) (idle exhausted stopping : Bool)
    → phase_rank ph idle (exhausted || true) ≤ phase_rank ph idle (exhausted || stopping)
phase_rank-stop testing idle exhausted stopping = ground arith
phase_rank-stop filling idle exhausted stopping = ground arith
phase_rank-stop waiting_done idle exhausted stopping = ground arith
phase_rank-stop left idle exhausted stopping = ground arith

Step-rank : {p q : Pool} (s : Step p q) → IsFed p → cost (is_loop s) + rank q ≤ rank p
Step-rank (request_stop p) fed =
    omega (arith, phase_rank-stop p.phase (nat_eq (length p.futures) 0) p.exhausted p.stopping)
Step-rank (test p caught at) fed = omega (arith, at_test-rank caught p at)
Step-rank (submitted p j rest at unfinished going room e) fed =
    omega (arith, submit-rank j rest p at e)
Step-rank (ran_out p at unfinished going room e) fed = ground arith
Step-rank (filled p at full) fed = ground arith
Step-rank (nothing_to_wait p at e) fed = ground (arith, fed at, ap length e)
Step-rank (done p before j after outcome at e) fed =
    omega (arith, settle-rank outcome before after j p at e)

-- With a worker at hand, a loop that has submitted all it may waits for something, or ends.
Step-IsFed : {p q : Pool} → Step p q → 1 ≤ p.max_workers → IsFed p → IsFed q
unfolding at_test on_stop submit settle
Step-IsFed (request_stop p) one fed = λ at. inl (ground arith)
Step-IsFed (test p caught at) one fed =
    if_cases IsFed (p.exhausted && is_nil p.futures) (λ _ h. cc)
      (λ _. if_cases IsFed p.stopping (λ s h. ground arith) (λ _ h. cc))
Step-IsFed (submitted p j rest at unfinished going room e) one fed = λ h. cc
Step-IsFed (ran_out p at unfinished going room e) one fed = λ h. inl refl
Step-IsFed (filled p at (inl over)) one fed = λ h. inl (rw over)
Step-IsFed (filled p at (inr (inl stop))) one fed = λ h. inl (ground arith)
Step-IsFed (filled p at (inr (inr full))) one fed = λ h. inr (omega arith)
Step-IsFed (nothing_to_wait p at e) one fed = λ h. cc
Step-IsFed (done p before j after finished at e) one fed = λ h. cc
Step-IsFed (done p before j after cancelled at e) one fed = λ h. cc
Step-IsFed (done p before j after failed at e) one fed = λ h. cc

-- The steps of the loop itself in a run.
abbrev pub loop_steps : {p q : Pool} → Run p q → ℕ
loop_steps begun = 0
loop_steps (then_step run step) = cost (is_loop step) + loop_steps run

run_rank :
    {p q : Pool} (run : Run p q)
    → 1 ≤ p.max_workers
    → IsFed p
    → (loop_steps run + rank q ≤ rank p) × IsFed q × (q.max_workers ≡ p.max_workers)
run_rank begun one fed = (omega arith, fed, refl)
run_rank (then_step run step) one fed =
    let (le, fed', same) = run_rank run one fed in
    (
      omega (arith, le, Step-rank step fed'),
      Step-IsFed step (omega (arith, same)) fed',
      max_workers-Step step ∙ same,
    )

-- What goes on in a loop that is not left.
abbrev pub Goes : Pool → Type 0
Goes p = (q : Pool) × (s : Step p q) × (is_loop s ≡ true)

fill-Goes : (p : Pool) (js : List Job) → p.phase ≡ filling → p.rows ≡ js → Goes p
fill-Goes p js at e = elim (Bool-cases p.exhausted) [
  | inl over ↦ (record p { phase = waiting_done }, filled p at (inl over), refl)
  | inr more ↦ elim (Bool-cases p.stopping) [
    | inl stop ↦ (record p { phase = waiting_done }, filled p at (inr (inl stop)), refl)
    | inr going ↦ elim (Bool-cases (ltb (length p.futures) p.max_workers)) [
      | inl room ↦ submit_goes p js at more going (ltb→lt _ _ room) e
      | inr full ↦ (record p { phase = waiting_done }, filled p at (inr (inr (ground arith))), refl)
    ]
  ]
]
  where
    submit_goes :
        (p : Pool) (js : List Job)
        → p.phase ≡ filling
        → p.exhausted ≡ false
        → p.stopping ≡ false
        → length p.futures < p.max_workers
        → p.rows ≡ js
        → Goes p
    submit_goes p [] at more going room e =
        (record p { exhausted = true; phase = waiting_done }, ran_out p at more going room e, refl)
    submit_goes p (j ∷ rest) at more going room e =
        (submit j rest p, submitted p j rest at more going room e, refl)

wait-Goes : (p : Pool) (js : List Job) → p.phase ≡ waiting_done → p.futures ≡ js → Goes p
wait-Goes p [] at e = (record p { phase = testing }, nothing_to_wait p at e, refl)
wait-Goes p (j ∷ js) at e = (settle finished js j p, done p [] j js finished at e, refl)

Goes-on : (p : Pool) (ph : Phase) → p.phase ≡ ph → (p.phase ≡ left) ⊎ Goes p
Goes-on p testing at = inr (at_test (λ j. false) p, test p (λ j. false) at, refl)
Goes-on p filling at = inr (fill-Goes p p.rows at refl)
Goes-on p waiting_done at = inr (wait-Goes p p.futures at refl)
Goes-on p left at = inl at

-- With a worker at hand, a run makes at most seven steps of the loop for a job and six more,
-- however stops and futures come, and as long as the loop is not left it can go on.
pub process_queue_ends :
    (max_workers : ℕ) (stopping : Bool) (jobs : List Job) {p : Pool}
    → 1 ≤ max_workers
    → (run : Run (new_pool max_workers stopping jobs) p)
    → (loop_steps run ≤ 7 * length jobs + 6) × ((p.phase ≡ left) ⊎ Goes p)
unfolding new_pool
process_queue_ends max_workers stopping jobs {p} one run =
    let (le, _, _) = run_rank run one (λ h. cc) in (ground (arith, le), Goes-on p p.phase refl)
