-- ===== src/Universe/Priority.antt =====
-- The runs of app/universe/scheduler.py for named pools.
use coinoskobi_dexbot.Common.{
  ℕ, ◌≤◌, ◌<◌, ◌||◌, ◌≡◌, refl, sym, ◌∙◌, ◌⊎◌, inl, inr, Bool-cases, Option, some, nat_eq, List, [],
  ◌∷◌, ◌++◌, if◌then◌else◌, length, length-append, All, In, arith, if_cases, Option-cases, leb,
}
use coinoskobi_dexbot.Common.Text.{Text, lower, strip}
use coinoskobi_dexbot.Universe.Registry.{Pool, Snapshot}
use coinoskobi_dexbot.Universe.Selection.{Scheduler, select}
use coinoskobi_dexbot.Universe.Observing.{row_of}
use coinoskobi_dexbot.Universe.Observing.{
  failed, max_batch, is_batch, observe_rows, run_priority, priority_due, rows_of, normalized_from,
  is_known, is_in,
}
use coinoskobi_dexbot.Universe.Choosing.{All-select_of}
use coinoskobi_dexbot.Common.{All-In}
use coinoskobi_dexbot.Universe.Recording.{IsSingle, IsPaced}
use coinoskobi_dexbot.Universe.Answers.{IsAnswer}
use coinoskobi_dexbot.Universe.Runs.{
  IsDone, observe_rows_lem, every_member, selected-Registered, selected-IsSingle,
}

row_of-In : (pool : Text) (rows : List Pool) (q : Pool) → row_of pool rows ≡ some q → In q rows
unfolding row_of
row_of-In pool [] q e = cc
row_of-In pool (x ∷ rows) q e = elim (Option-cases (row_of pool rows)) [
  | inr (later, found) ↦ inr (row_of-In pool rows q (found ∙ sym (rw (row_of, found) refl) ∙ e))
  | inl none_found ↦ inl (ground arith)
]

rows_of-All :
    (P : Pool → Type 0) (pools : List Text) (rows : List Pool)
    → All P rows
    → All P (rows_of pools rows)
unfolding rows_of
rows_of-All P [] rows a = tt
rows_of-All P (pool ∷ pools) rows a = elim (Option-cases (row_of pool rows)) [
  | inl none_found ↦ rw (rows_of, none_found) (rows_of-All P pools rows a)
  | inr (q, found) ↦
      rw (rows_of, found)
        (All-In P rows a (row_of-In pool rows q found), rows_of-All P pools rows a)
]

length-rows_of : (pools : List Text) (rows : List Pool) → length (rows_of pools rows) ≤ length pools
unfolding rows_of
length-rows_of [] rows = omega arith
length-rows_of (pool ∷ pools) rows = elim (Option-cases (row_of pool rows)) [
  | inl none_found ↦ rw (rows_of, none_found) (omega (arith, length-rows_of pools rows))
  | inr (q, found) ↦ rw (rows_of, found) (omega (arith, length-rows_of pools rows))
]

length-normalized_from :
    (limit : ℕ) (pools values : List Text)
    → length pools < limit
    → length (normalized_from limit pools values) ≤ limit
unfolding normalized_from
length-normalized_from limit pools [] lt = omega (arith, lt)
length-normalized_from limit pools (value ∷ values) lt =
    let pool = lower (strip value) in
    let P = λ (xs : List Text). length xs ≤ limit in
    let step = λ (pools' : List Text) (le : length pools' ≤ limit).
      if_cases P (leb limit (length pools')) {x = pools'} {y = normalized_from limit pools' values}
        (λ _. le) (λ e. length-normalized_from limit pools' values (ground (arith, le, e))) in
    let Q = λ (pools' : List Text).
      P (if leb limit (length pools') then pools' else normalized_from limit pools' values) in
    if_cases Q (nat_eq (length pool) 0 || is_in pool pools) (λ _. step pools (omega (arith, lt)))
      (λ _. step (pools ++ (pool ∷ [])) (omega (arith, length-append pools (pool ∷ []), lt)))

-- A run for pools that are named, under the same conditions as a run of the scheduler: with a limit
-- from 1 to 30 it asks for at most the limit, it does not raise, and every pool that it asked for
-- has a next time that is yet to come; with any other limit it raises and changes nothing.
pub run_priority_lem :
    (now limit : ℕ) (values : List Text) (fetch : List Pool → Option (List Snapshot))
    (s : Scheduler)
    → IsPaced s
    → IsSingle s.pools
    → IsAnswer (priority_due limit values s) (fetch (priority_due limit values s))
    → ((1 ≤ limit)
        × (limit ≤ max_batch)
        × (length (priority_due limit values s) ≤ limit)
        × IsDone now (priority_due limit values s) (run_priority now limit values fetch s))
      ⊎ (((limit < 1) ⊎ (max_batch < limit))
          × (run_priority now limit values fetch s ≡ (s, failed)))
unfolding run_priority priority_due
run_priority_lem now limit values fetch s paced single answer =
    let pools = normalized_from limit [] values in
    let rows = select (is_known pools) s.pools in
    let P = λ (r : Pool). In r s.pools in
    let inside : All P (rows_of pools rows) =
      rows_of-All P pools rows
        (All-select_of P (is_known pools) s.pools (every_member P s.pools λ r m. m)) in
    let due = rows_of pools rows in
    let done : IsDone now due (observe_rows now due (fetch due) s) =
      observe_rows_lem now due (fetch due) s paced (selected-IsSingle due s.pools single inside)
        answer (selected-Registered due s.pools inside) in
    elim (Bool-cases (is_batch limit)) [
      | inl batch ↦
          let positive : 1 ≤ limit = ground arith in
          inl (
            positive,
            ground arith,
            omega
                (arith, length-rows_of pools rows, length-normalized_from limit [] values positive),
            rw batch done,
          )
      | inr other ↦ inr (ground arith, rw other refl)
    ]
