-- ===== src/Universe/Runs.antt =====
-- Whole runs of app/universe/scheduler.py.
use coinoskobi_dexbot.Common.{
  ℕ, ◌+◌, ◌*◌, ◌<◌, ◌≤◌, ◌↔◌, Bool, Bool-cases, true, false, not, ◌&&◌, ◌≡◌, ◌≢◌, refl, ap, ◌⊎◌,
  inl, inr, Option, none, some, nat_eq, List, [], ◌∷◌, if◌then◌else◌, length, All, In, arith,
  if_cases,
}
use coinoskobi_dexbot.Common.Text.{text_eq_iff}
use coinoskobi_dexbot.Universe.Registry.{
  Pool, Snapshot, is_at, exists, schedule_observations, record_observations,
}
use coinoskobi_dexbot.Universe.Selection.{Scheduler, select}
use coinoskobi_dexbot.Universe.Observing.{
  micros, next_time, all_asked, is_missing, Observed, degraded, failed, with_pools, after_record,
  observe_rows,
}
use coinoskobi_dexbot.Universe.Selection.{
  select_due, has_history_due, is_unseen_due, due_with_history, due_breadth,
}
use coinoskobi_dexbot.Universe.Observing.{run_once, max_batch, is_batch, after_display}
use coinoskobi_dexbot.Universe.Display.{persist_display}
use coinoskobi_dexbot.Universe.Choosing.{All-select_of, All-select_due}
use coinoskobi_dexbot.Universe.Resting.{key_of, Rests, Registered, schedule_lem}
use coinoskobi_dexbot.Common.{All-In}
use coinoskobi_dexbot.Universe.Recording.{
  IsSingle, IsPaced, record_lem, recorded_rows, asked-All, times_later,
}
use coinoskobi_dexbot.Universe.Answers.{
  IsWhole, IsAnswer, whole-IsAsked, whole_sourced, displays_lem,
}

-- A run that ends as it should: it does not raise, and its pools rest.
abbrev pub IsDone : ℕ → List Pool → Scheduler × Observed → Type 0
IsDone now due r = (r.1 ≢ failed) × All (λ row. Rests now row r.0.pools) due

degraded_lem :
    (now time : ℕ) (due rows : List Pool) (n : ℕ) (s : Scheduler)
    → now < time
    → Registered rows s.pools
    → IsDone now rows (with_pools (degraded n) (schedule_observations time rows s.pools) s)
degraded_lem now time due rows n s lt a =
    let (pools', e, v) = schedule_lem now time rows s.pools lt a in rw e (λ x. cc, v.rest)

if_cons :
    (P : Pool → Type 0) (b : Bool) (r : Pool) (rows : List Pool)
    → All P (if b then r ∷ rows else rows)
    → ((b ≡ true) × P r ⊎ (b ≡ false)) × All P rows
if_cons P true r rows a = (inl (refl, a.0), a.1)
if_cons P false r rows a = (inr refl, a)

-- The missing rows rest by their retry, and the others as they are recorded.
rest-All :
    (now : ℕ) (snapshots : List Snapshot) (pools'' rows : List Pool)
    → All (λ r. Rests now r pools'') (select (is_missing snapshots) rows)
    → ((r : Pool) → In r rows → is_missing snapshots r ≡ false → Rests now r pools'')
    → All (λ r. Rests now r pools'') rows
unfolding select
rest-All now snapshots pools'' [] w seen = tt
rest-All now snapshots pools'' (r ∷ rows) w seen =
    let (first, rest) =
      if_cons (λ q. Rests now q pools'') (is_missing snapshots r) r
        (select (is_missing snapshots) rows) w in
    (
      elim first [ inl (missing, rests) ↦ rests | inr found ↦ seen r (inl refl) found ],
      rest-All now snapshots pools'' rows rest λ q m. seen q (inr m),
    )

complete_lem :
    (now : ℕ) (due : List Pool) (snapshots : List Snapshot) (s : Scheduler)
    → IsPaced s
    → IsSingle due
    → All (IsWhole due) snapshots
    → Registered due s.pools
    → IsDone now due (
        after_record now due snapshots
          (record_observations (next_time now due s) snapshots s.pools)
          s)
unfolding after_record after_display persist_display
complete_lem now due snapshots s paced single whole a =
    let asked = whole-IsAsked due snapshots whole in
    let (pools', e, v) =
      record_lem now due (next_time now due s) snapshots s.pools single asked
        (times_later now due s snapshots paced asked) a in
    let sourced =
      recorded_rows (next_time now due s) snapshots s.pools (whole_sourced due snapshots whole) in
    let (rows, g) = displays_lem due snapshots whole in
    let missing = select (is_missing snapshots) due in
    let (pools'', f, w) =
      schedule_lem now (now + s.missing_retry_seconds * micros) missing pools'
        (omega (arith, paced.3))
        (All-select_of (λ r. exists (key_of r) pools' ≡ true) (is_missing snapshots) due
          v.registered) in
    rw (sourced, e, g, f)
      (λ x. cc, rest-All now snapshots pools'' due w.rest λ r m found. w.kept r (v.rest r m found))

pub observe_rows_lem :
    (now : ℕ) (due : List Pool) (fetched : Option (List Snapshot)) (s : Scheduler)
    → IsPaced s
    → IsSingle due
    → IsAnswer due fetched
    → Registered due s.pools
    → IsDone now due (observe_rows now due fetched s)
unfolding observe_rows
observe_rows_lem now [] fetched s paced single answer a = (λ x. cc, tt)
observe_rows_lem now (row ∷ rows) none s paced single answer a =
    degraded_lem now (now + s.missing_retry_seconds * micros) (row ∷ rows) (row ∷ rows)
      (length (row ∷ rows)) s (omega (arith, paced.3)) a
observe_rows_lem now (row ∷ rows) (some snapshots) s paced single answer a =
    if_cases (IsDone now (row ∷ rows)) (all_asked (row ∷ rows) snapshots)
      (λ _. complete_lem now (row ∷ rows) snapshots s paced single answer a)
      (λ e. absurd (
        ground
          (arith, asked-All (row ∷ rows) snapshots (whole-IsAsked (row ∷ rows) snapshots answer))))

here_exists : (q : Pool) (ps : List Pool) → In q ps → exists (key_of q) ps ≡ true
unfolding exists is_at
here_exists q [] m = absurd m
here_exists q (x ∷ ps) m = elim m [
  | inl e ↦ ground (
    arith,
    ap (λ (p : Pool). p.chain) e,
    ap (λ (p : Pool). p.dex) e,
    ap (λ (p : Pool). p.pool) e,
    text_eq_iff x.chain q.chain,
    text_eq_iff x.dex q.dex,
    text_eq_iff x.pool q.pool,
  )
  | inr more ↦ ground (arith, here_exists q ps more)
]

pub every_member :
    (P : Pool → Type 0) (rows : List Pool) → ((r : Pool) → In r rows → P r) → All P rows
every_member P [] f = tt
every_member P (r ∷ rows) f = (f r (inl refl), every_member P rows λ q m. f q (inr m))

-- The selection is of the registered rows.
selected-In : (now limit : ℕ) (s : Scheduler) → All (λ r. In r s.pools) (select_due now limit s).1
selected-In now limit s =
    let P = λ (r : Pool). In r s.pools in
    let self : All P s.pools = every_member P s.pools λ r m. m in
    All-select_due P now limit s (All-select_of P (has_history_due now) s.pools self)
      (λ b dex. All-select_of P (is_unseen_due now b dex) s.pools self)

pub selected-Registered :
    (rows pools : List Pool) → All (λ r. In r pools) rows → Registered rows pools
selected-Registered rows pools a =
    every_member (λ r. exists (key_of r) pools ≡ true) rows
      λ r m. here_exists r pools (All-In _ rows a m)

pub selected-IsSingle :
    (rows pools : List Pool) → IsSingle pools → All (λ r. In r pools) rows → IsSingle rows
selected-IsSingle rows pools single a = every_member _ rows λ r m.
    every_member _ rows
      λ q m'. All-In _ pools (All-In _ pools single (All-In _ rows a m)) (All-In _ rows a m')

-- A selection turns the preferences, and keeps the pools and the intervals.
select_keeps :
    (now limit : ℕ) (s : Scheduler)
    → IsPaced s
    → IsPaced (select_due now limit s).0 × ((select_due now limit s).0.pools ≡ s.pools)
unfolding select_due due_breadth
select_keeps now limit s paced =
    if_cases (λ (r : Scheduler × List Pool). IsPaced r.0 × (r.0.pools ≡ s.pools))
      (s.prefer_depth && not (nat_eq (length (due_with_history now limit s.pools)) 0))
      (λ _. (paced, refl)) (λ _. (paced, refl))

pub batch_iff : (limit : ℕ) → (is_batch limit ≡ true) ↔ ((1 ≤ limit) × (limit ≤ max_batch))
batch_iff limit = ground arith

-- A run of the scheduler with positive intervals, over rows of which no two share an address, whose
-- client fails or answers with whole snapshots of pools that it was asked for: with a limit from 1 to
-- 30 it does not raise, and every pool that it selected, whether it was observed, was missing or
-- the client failed, has a next time that is yet to come; with any other limit it raises and
-- changes nothing.
pub run_once_lem :
    (now limit : ℕ) (fetch : List Pool → Option (List Snapshot)) (s : Scheduler)
    → IsPaced s
    → IsSingle s.pools
    → IsAnswer (select_due now limit s).1 (fetch (select_due now limit s).1)
    → ((1 ≤ limit)
        × (limit ≤ max_batch)
        × IsDone now (select_due now limit s).1 (run_once now limit fetch s))
      ⊎ (((limit < 1) ⊎ (max_batch < limit)) × (run_once now limit fetch s ≡ (s, failed)))
unfolding run_once
run_once_lem now limit fetch s paced single answer =
    let (paced', kept) = select_keeps now limit s paced in
    let inside = selected-In now limit s in
    let due = (select_due now limit s).1 in
    let done : IsDone now due (observe_rows now due (fetch due) (select_due now limit s).0) =
      observe_rows_lem now due (fetch due) (select_due now limit s).0 paced'
        (selected-IsSingle due s.pools single inside) answer
        (rw kept (selected-Registered due s.pools inside)) in
    elim (Bool-cases (is_batch limit)) [
      | inl batch ↦ inl (ground arith, ground arith, rw batch done)
      | inr other ↦ inr (ground arith, rw other refl)
    ]
