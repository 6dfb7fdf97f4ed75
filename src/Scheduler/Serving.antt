-- ===== src/Scheduler/Serving.antt =====
-- The rows that the scheduler of app/pipeline/work_scheduler.py takes out of the queue, against its
-- live entries.
use coinoskobi_dexbot.Common.{
  ℕ, zero, suc, ◌<◌, Bool-cases, ◌≡◌, refl, sym, ap, ◌∙◌, inl, inr, some, List, [], ◌∷◌, length,
  arith,
}
use mathlib.Core.List.{Perm}
use mathlib.Core.List.Perm
use mathlib.Core.Path.{subst}
use coinoskobi_dexbot.Common.Dict.{Dict, lookup, erase, length-erase}
use coinoskobi_dexbot.Common.Text.{Text, text_eq, text_Eq}
use coinoskobi_dexbot.Row.{Row}
use coinoskobi_dexbot.Queue.Defs.{Entry, Queue, clean_best_heap, maintenance}
use coinoskobi_dexbot.Queue.Invariant.{IsValid, IsBounded}
use coinoskobi_dexbot.Queue.Maintenance.{
  maintenance-IsValid, maintenance-IsBounded, clean_best-IsValid, maintenance_same,
}
use coinoskobi_dexbot.Queue.Popping.{IsServed, pop-some, pop-none, no_entry_or_some}
use coinoskobi_dexbot.Scheduler.Lanes.{
  Lane, warm, partial, cold, Lanes, Counts, count_in, Job, sort_rows, no_lanes, no_counts,
  ordered_rows,
}
use coinoskobi_dexbot.Scheduler.Drain.{in_lane, IsOrdered, ordered_rows_lem, length-lanes}
use coinoskobi_dexbot.Scheduler.Pool.{total_of}
use coinoskobi_dexbot.Scheduler.Feed.{drain_queue, drain_by_lane_and_chain}

abbrev pub live_rows : Dict Text Entry → List Row
live_rows [] = []
live_rows (x ∷ d) = (x.1).row ∷ live_rows d

-- The rows in the order in which the entries are served: each time one that none of the remaining
-- entries goes before.
pub data IsServing : Dict Text Entry → List Row → Type 0 where
  all_served : (d : Dict Text Entry) → length d ≡ 0 → IsServing d []
  serve_next :
      (d : Dict Text Entry) (k : Text) (e : Entry) (rows : List Row)
      → IsServed d k e
      → IsServing (erase k d) rows
      → IsServing d (e.row ∷ rows)

live_rows-erase :
    (k : Text) (e : Entry) (d : Dict Text Entry)
    → lookup k d ≡ some e
    → Perm (e.row ∷ live_rows (erase k d)) (live_rows d)
live_rows-erase k e [] p = absurd (ground arith)
live_rows-erase k e ((j, w) ∷ d) p = elim (Bool-cases (text_eq k j)) [
  | inl same ↦
      let found : w ≡ e = ground arith in
      rw same (
        subst (λ (x : Entry). Perm (e.row ∷ live_rows d) (x.row ∷ live_rows d)) (sym found)
          (Perm.refl _))
  | inr other ↦
      rw other
        (Perm.trans (Perm.swap _ _ _) (Perm.cons w.row (live_rows-erase k e d (ground arith))))
]

IsServing-perm :
    {d : Dict Text Entry} {rows : List Row} → IsServing d rows → Perm rows (live_rows d)
IsServing-perm (all_served [] e) = Perm.refl _
IsServing-perm (all_served (x ∷ d) e) = absurd (omega arith)
IsServing-perm (serve_next d k e rows s rest) =
    Perm.trans (Perm.cons e.row (IsServing-perm rest)) (live_rows-erase k e d s.found)

length-IsServing :
    {d : Dict Text Entry} {rows : List Row} → IsServing d rows → length rows ≡ length d
length-IsServing (all_served d e) = sym e
length-IsServing (serve_next d k e rows s rest) =
    omega (arith, length-IsServing rest, length-erase k e d s.found)

-- What a drain of the queue leaves and yields.
pub record IsDrained (q r : Queue) (rows : List Row) : Type 0 where
  pub serving : IsServing q.entries rows
  pub empty : length r.entries ≡ 0
  pub valid : IsValid r
  pub bounded : IsBounded r

-- With more fuel than entries the drain ends: it yields the live rows in the order in which they
-- are served, and leaves no entry.
pub drain_queue_lem :
    (fuel : ℕ) (clock : ℕ → ℕ) {q : Queue}
    → IsValid q
    → length q.entries < fuel
    → (r : Queue) × (rows : List Row) × (drain_queue fuel clock q ≡ some (r, rows))
      × IsDrained q r rows
unfolding drain_queue clean_best_heap
drain_queue_lem zero clock {q} v h = absurd (omega arith)
drain_queue_lem (suc fuel) clock {q} v h = elim (no_entry_or_some q.entries) [
  | inl none_left ↦
      let r = maintenance (clock fuel) (clean_best_heap q) in
      let v' = clean_best-IsValid v in
      (
        r,
        [],
        rw (pop-none (clock fuel) q none_left) refl,
        record {
          serving = all_served q.entries none_left;
          empty =
              ap length (maintenance_same (clock fuel) (clean_best_heap q)).entries_eq ∙ none_left;
          valid = maintenance-IsValid (clock fuel) v';
          bounded = maintenance-IsBounded (clock fuel) v';
        },
      )
  | inr (k, e, p) ↦
      let (j, w, q', is) = pop-some (clock fuel) k e v p in
      let shorter = length-erase j w q.entries is.served_first.found in
      let le : length q'.entries < fuel = omega (arith, ap length is.entries_eq, shorter) in
      let (r, rows, same, done) = drain_queue_lem fuel clock is.valid le in
      (
        r,
        w.row ∷ rows,
        rw is.result (rw same refl),
        record {
          serving =
              serve_next q.entries j w rows is.served_first
                (subst (λ d. IsServing d rows) is.entries_eq done.serving);
          empty = done.empty;
          valid = done.valid;
          bounded = done.bounded;
        },
      )
]

total_of_counts :
    (rows : List Row) (counts : Counts)
    → ((lane : Lane) → count_in lane counts ≡ length (in_lane lane rows))
    → total_of counts ≡ length rows
total_of_counts rows counts c = omega (arith, c warm, c partial, c cold, length-lanes rows)

-- In a queue with the invariant the drain into lanes and chains ends and leaves no live entry, and
-- the scheduler then yields every live row once: WARM before PARTIAL before COLD. The rows come out
-- of the queue in the order in which they are served, and the counts add up to the live entries.
pub drain_by_lane_and_chain_lem :
    (clock : ℕ → ℕ) {q : Queue}
    → IsValid q
    → (r : Queue) × (lanes : Lanes) × (counts : Counts) × (rows : List Row) × (jobs : List Job)
      × (drain_by_lane_and_chain clock q ≡ some (r, (lanes, counts)))
      × IsDrained q r rows
      × Perm rows (live_rows q.entries)
      × (ordered_rows lanes ≡ some jobs)
      × IsOrdered rows jobs
      × (total_of counts ≡ length q.entries)
unfolding drain_by_lane_and_chain
drain_by_lane_and_chain_lem clock {q} v =
    let (r, rows, e, done) = drain_queue_lem (suc (length q.entries)) clock v (omega arith) in
    let (jobs, yields, ordered, counted) = ordered_rows_lem rows in
    let (lanes, counts) = sort_rows rows no_lanes no_counts in
    (
      r,
      lanes,
      counts,
      rows,
      jobs,
      rw e refl,
      done,
      IsServing-perm done.serving,
      yields,
      ordered,
      total_of_counts rows counts counted ∙ length-IsServing done.serving,
    )
