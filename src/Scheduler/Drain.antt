-- ===== src/Scheduler/Drain.antt =====
-- The lanes of app/pipeline/work_scheduler.py against the drained rows: what is put into the queues
-- of a lane, and what `_ordered_rows` yields.
use coinoskobi_dexbot.Common.{
  ℕ, suc, ◌+◌, Bool, true, false, ◌≡◌, refl, ap, ◌∙◌, inl, inr, some, List, [], ◌∷◌, ◌++◌, map,
  arith, if◌then◌else◌, length, In, Bool-cases,
}
use mathlib.Core.Path.{subst}
use mathlib.Core.List.{Perm, perm_middle, append-nil}
use mathlib.Core.List.Perm
use mathlib.Core.Option
use coinoskobi_dexbot.Common.Dict.{lookup, Unique}
use coinoskobi_dexbot.Common.Text.{Text, text_eq, text_eq_iff, text_Eq}
use coinoskobi_dexbot.Row.{Row}
use coinoskobi_dexbot.Scheduler.Lanes.{
  Lane, warm, partial, cold, lane_of, row_chain, Chains, Lanes, Counts, count_in, bump, append_row,
  place, sort_rows, no_lanes, no_counts, rows_of, chains_of, round_robin_rows, Job, job_in,
  ordered_rows,
}
use coinoskobi_dexbot.Scheduler.Order.{rows_of-append_row, append_row-Unique, round_robin-Yields}

abbrev pub same_lane : Lane → Lane → Bool
same_lane warm warm = true
same_lane partial partial = true
same_lane cold cold = true
same_lane _ _ = false

-- The rows of a lane, in the order in which they come.
abbrev pub in_lane : Lane → List Row → List Row
in_lane lane [] = []
in_lane lane (row ∷ rows) =
    if same_lane lane (lane_of row) then row ∷ in_lane lane rows else in_lane lane rows

pub length-lanes :
    (rows : List Row)
    → length rows
      ≡ length (in_lane warm rows) + length (in_lane partial rows) + length (in_lane cold rows)
length-lanes [] = omega arith
length-lanes (row ∷ rows) = ground (arith, length-lanes rows)

abbrev pub lane_chains : Lane → Lanes → Chains
lane_chains warm l = l.warm_chains
lane_chains partial l = l.partial_chains
lane_chains cold l = l.cold_chains

-- A row goes into its own lane, and the others stay.
lane_chains-place :
    (lane : Lane) (row : Row) (l : Lanes)
    → lane_chains lane (place row l) ≡ (
        if same_lane lane (lane_of row)
        then append_row (row_chain row) row (lane_chains lane l)
        else lane_chains lane l)
unfolding place
lane_chains-place warm row l = ground arith
lane_chains-place partial row l = ground arith
lane_chains-place cold row l = ground arith

count_in-bump :
    (lane other : Lane) (c : Counts)
    → count_in lane (bump other c)
      ≡ (if same_lane lane other then suc (count_in lane c) else count_in lane c)
count_in-bump warm other c = ground arith
count_in-bump partial other c = ground arith
count_in-bump cold other c = ground arith

rows_of-place :
    (lane : Lane) (row : Row) (l : Lanes) (rows : List Row)
    → Perm (rows ++ rows_of (lane_chains lane (place row l))) (
        (if same_lane lane (lane_of row) then row ∷ rows else rows) ++ rows_of (lane_chains lane l))
rows_of-place lane row l rows = elim (Bool-cases (same_lane lane (lane_of row))) [
  | inl e ↦
      rw (lane_chains-place lane row l, e)
        (Perm.trans
          (Perm.append_left rows (rows_of-append_row (row_chain row) row (lane_chains lane l)))
          (perm_middle rows (rows_of (lane_chains lane l))))
  | inr e ↦ rw (lane_chains-place lane row l, e) (Perm.refl _)
]

sort_rows-perm :
    (lane : Lane) (rows : List Row) (l : Lanes) (c : Counts)
    → Perm
        (rows_of (lane_chains lane (sort_rows rows l c).0))
        (in_lane lane rows ++ rows_of (lane_chains lane l))
unfolding sort_rows
sort_rows-perm lane [] l c = Perm.refl _
sort_rows-perm lane (row ∷ rows) l c =
    Perm.trans (sort_rows-perm lane rows (place row l) (bump (lane_of row) c))
      (rows_of-place lane row l (in_lane lane rows))

sort_rows-Unique :
    (lane : Lane) (rows : List Row) (l : Lanes) (c : Counts)
    → Unique (lane_chains lane l)
    → Unique (lane_chains lane (sort_rows rows l c).0)
unfolding sort_rows
sort_rows-Unique lane [] l c u = u
sort_rows-Unique lane (row ∷ rows) l c u =
    sort_rows-Unique lane rows (place row l) (bump (lane_of row) c)
      (elim (Bool-cases (same_lane lane (lane_of row))) [
        | inl e ↦
            rw (lane_chains-place lane row l, e)
              (append_row-Unique (row_chain row) row (lane_chains lane l) u)
        | inr e ↦ rw (lane_chains-place lane row l, e) u
      ])

pub sort_rows-count :
    (lane : Lane) (rows : List Row) (l : Lanes) (c : Counts)
    → count_in lane (sort_rows rows l c).1 ≡ length (in_lane lane rows) + count_in lane c
unfolding sort_rows
sort_rows-count lane [] l c = omega arith
sort_rows-count lane (row ∷ rows) l c = ground (
  arith,
  sort_rows-count lane rows (place row l) (bump (lane_of row) c),
  count_in-bump lane (lane_of row) c,
)

-- Before the first round every chain is active.
chains_there :
    (d : Chains) (k : Text) → In k (chains_of d) → (items : List Row) × (lookup k d ≡ some items)
chains_there [] k m = absurd m
chains_there ((j, items) ∷ d) k (inl e) = (items, rw ((text_eq_iff k j).1 e))
chains_there ((j, items) ∷ d) k (inr m) = elim (Bool-cases (text_eq k j)) [
  | inl same ↦ (items, rw same)
  | inr other ↦ let (found, p) = chains_there d k m in (found, rw other p)
]

chain_listed :
    (d : Chains) (k : Text) (items : List Row) → lookup k d ≡ some items → In k (chains_of d)
chain_listed [] k items p = cc
chain_listed ((j, w) ∷ d) k items p = elim (Bool-cases (text_eq k j)) [
  | inl same ↦ inl ((text_eq_iff k j).0 same)
  | inr other ↦ inr (chain_listed d k items (ground arith))
]

length-chains_of : (d : Chains) → length (chains_of d) ≡ length d
length-chains_of [] = refl
length-chains_of (x ∷ d) = ap suc (length-chains_of d)

-- On queues whose chains are distinct, the round robin ends and yields every row of every chain
-- once.
pub round_robin_rows-perm :
    (d : Chains)
    → Unique d
    → (out : List Row) × (round_robin_rows d ≡ some out) × Perm out (rows_of d)
unfolding round_robin_rows
round_robin_rows-perm d u =
    round_robin-Yields (suc (length (rows_of d) + length d)) (chains_of d) d u
      (record {
        there = chains_there d;
        active_chain = λ k row rest p. chain_listed d k (row ∷ rest) p;
      })
      (omega (arith, length-chains_of d))

-- What `_ordered_rows` yields for drained rows: the WARM rows, then the PARTIAL ones, then the COLD
-- ones, in each lane every row once.
pub record IsOrdered (rows : List Row) (jobs : List Job) : Type 0 where
  pub warm_rows : List Row
  pub partial_rows : List Row
  pub cold_rows : List Row
  pub jobs_eq :
      jobs
      ≡ map (job_in warm) warm_rows
        ++ map (job_in partial) partial_rows
        ++ map (job_in cold) cold_rows
  pub warm_perm : Perm warm_rows (in_lane warm rows)
  pub partial_perm : Perm partial_rows (in_lane partial rows)
  pub cold_perm : Perm cold_rows (in_lane cold rows)

lane_rows :
    (lane : Lane) (rows : List Row)
    → Unique (lane_chains lane no_lanes)
    → rows_of (lane_chains lane no_lanes) ≡ []
    → (out : List Row) × (round_robin_rows (lane_chains lane (sort_rows rows no_lanes no_counts).0)
        ≡ some out)
      × Perm out (in_lane lane rows)
lane_rows lane rows u e =
    let (out, q, perm) =
      round_robin_rows-perm (lane_chains lane (sort_rows rows no_lanes no_counts).0)
        (sort_rows-Unique lane rows no_lanes no_counts u) in
    (
      out,
      q,
      Perm.trans perm (
          subst (λ xs. Perm (rows_of (lane_chains lane (sort_rows rows no_lanes no_counts).0)) xs)
            (rw (e, append-nil)) (sort_rows-perm lane rows no_lanes no_counts)),
    )

no_count : (lane : Lane) (n : ℕ) → n + count_in lane no_counts ≡ n
no_count warm n = omega arith
no_count partial n = omega arith
no_count cold n = omega arith

-- Sorting the drained rows into lanes and chains and taking them out again ends, and yields every
-- row once: the WARM rows, then the PARTIAL ones, then the COLD ones; the count of a lane is the
-- number of its rows.
pub ordered_rows_lem :
    (rows : List Row)
    → let (lanes, counts) = sort_rows rows no_lanes no_counts in
      (jobs : List Job) × (ordered_rows lanes ≡ some jobs)
      × IsOrdered rows jobs
      × ((lane : Lane) → count_in lane counts ≡ length (in_lane lane rows))
unfolding ordered_rows rows_of Option.bind
ordered_rows_lem rows =
    let (w, we, wp) = lane_rows warm rows tt refl in
    let (p, pe, pp) = lane_rows partial rows tt refl in
    let (c, ce, cp) = lane_rows cold rows tt refl in
    (
      map (job_in warm) w ++ map (job_in partial) p ++ map (job_in cold) c,
      rw (we, pe, ce),
      record {
        warm_rows = w;
        partial_rows = p;
        cold_rows = c;
        jobs_eq = refl;
        warm_perm = wp;
        partial_perm = pp;
        cold_perm = cp;
      },
      λ lane.
          sort_rows-count lane rows no_lanes no_counts ∙ no_count lane (length (in_lane lane rows)),
    )
