-- ===== src/Conveyor/Laws.antt =====
-- The labels of app/pipeline/conveyor.py against the lanes of app/pipeline/work_scheduler.py.
use coinoskobi_dexbot.Common.{
  ℕ, suc, ◌+◌, Bool, true, false, ◌≡◌, refl, sym, ap, ◌∙◌, List, [], ◌∷◌, if◌then◌else◌, length,
  arith,
}
use coinoskobi_dexbot.Common.Text.{Text, codes}
use coinoskobi_dexbot.Row.{given, Row}
use coinoskobi_dexbot.Cache.Table.{Cache}
use coinoskobi_dexbot.Scheduler.Lanes.{
  count_in, sort_rows, no_lanes, no_counts, Lane, warm, partial, cold, lane_of, lane_of_label,
}
use coinoskobi_dexbot.Scheduler.Drain.{same_lane, in_lane, sort_rows-count, length-lanes}
use coinoskobi_dexbot.Conveyor.Labels.{
  Readings, cache_key, hit, conveyor_of, label, LabelStats, state_text, count_state, label_rows,
  label_many, token_ttl, pair_ttl, risk_ttl,
}

-- The lane of a label: WARM if all three analyzers hit, COLD if none does, else PARTIAL.
abbrev pub lane_by_hits : Bool → Bool → Bool → Lane
lane_by_hits true true true = warm
lane_by_hits false false false = cold
lane_by_hits _ _ _ = partial

pub lane_of-conveyor_of :
    (t p r : Bool) → lane_of_label (given (conveyor_of t p r)) ≡ lane_by_hits t p r
unfolding lane_of_label conveyor_of
lane_of-conveyor_of true true true = refl
lane_of-conveyor_of true true false = refl
lane_of-conveyor_of true false true = refl
lane_of-conveyor_of true false false = refl
lane_of-conveyor_of false true true = refl
lane_of-conveyor_of false true false = refl
lane_of-conveyor_of false false true = refl
lane_of-conveyor_of false false false = refl

-- The lane in which `label` puts a row is decided by the three reads alone, and everything else of
-- the row stays.
pub label_lane :
    (readings : Readings) (row : Row) (c : Cache)
    → let key = cache_key row in
      let (c₁, t) = hit readings.token_read (codes "token") key token_ttl c in
      let (c₂, p) = hit readings.pair_read (codes "pair") key pair_ttl c₁ in
      let (c₃, r) = hit readings.risk_read (codes "risk") key risk_ttl c₂ in
      (lane_of (label readings row c).1 ≡ lane_by_hits t p r)
      × ((label readings row c).1 ≡ record row { conveyor = given (conveyor_of t p r) })
      × ((label readings row c).0 ≡ c₃)
unfolding label lane_of
label_lane readings row c = (lane_of-conveyor_of _ _ _, refl, refl)

abbrev pub stat_of : Lane → LabelStats → ℕ
stat_of warm s = s.warm_rows
stat_of partial s = s.partial_rows
stat_of cold s = s.cold_rows

-- The text that is counted names the lane that the scheduler reads from the label.
count_state_lane :
    (t p r : Bool) (lane : Lane) (s : LabelStats)
    → stat_of lane (count_state (state_text (given (conveyor_of t p r))) s)
      ≡ (if same_lane lane (lane_by_hits t p r) then suc (stat_of lane s) else stat_of lane s)
unfolding conveyor_of
count_state_lane true true true lane s = ground arith
count_state_lane true true false lane s = ground arith
count_state_lane true false true lane s = ground arith
count_state_lane true false false lane s = ground arith
count_state_lane false true true lane s = ground arith
count_state_lane false true false lane s = ground arith
count_state_lane false false true lane s = ground arith
count_state_lane false false false lane s = ground arith

input-count_state : (state : Text) (s : LabelStats) → (count_state state s).input ≡ s.input
input-count_state state s = ground arith

label_rows_counts :
    (lane : Lane) (rows : List (Readings × Row)) (s : LabelStats) (c : Cache)
    → let (_, items, s') = label_rows rows s c in
      (stat_of lane s' ≡ length (in_lane lane items) + stat_of lane s)
      × (s'.input ≡ s.input)
      × (length items ≡ length rows)
unfolding label_rows
label_rows_counts lane [] s c = (omega arith, refl, refl)
label_rows_counts lane ((readings, row) ∷ rows) s c =
    let (c₁, t) = hit readings.token_read (codes "token") (cache_key row) token_ttl c in
    let (c₂, p) = hit readings.pair_read (codes "pair") (cache_key row) pair_ttl c₁ in
    let (c₃, r) = hit readings.risk_read (codes "risk") (cache_key row) risk_ttl c₂ in
    let s₁ = count_state (state_text (given (conveyor_of t p r))) s in
    let (counted, input, size) = label_rows_counts lane rows s₁ c₃ in
    (
      ground (arith, counted, count_state_lane t p r lane s, (label_lane readings row c).0),
      input ∙ input-count_state (state_text (given (conveyor_of t p r))) s,
      ap suc size,
    )

same_count : (lane : Lane) (n : ℕ) → n + count_in lane no_counts ≡ n
same_count warm n = omega arith
same_count partial n = omega arith
same_count cold n = omega arith

no_stat :
    (lane : Lane) (n m : ℕ)
    → n + stat_of lane (record { input = m; warm_rows = 0; partial_rows = 0; cold_rows = 0 }) ≡ n
no_stat warm n m = omega arith
no_stat partial n m = omega arith
no_stat cold n m = omega arith

-- The statistics of `label_many` count the labelled rows as the scheduler sorts them: by lane, with
-- the input as their sum.
label_many_counts :
    (rows : List (Readings × Row)) (c : Cache)
    → let (_, items, stats) = label_many rows c in
      ((lane : Lane) → count_in lane (sort_rows items no_lanes no_counts).1 ≡ stat_of lane stats)
      × (length items ≡ length rows)
      × (stats.input ≡ length rows)
      × (stats.warm_rows + stats.partial_rows + stats.cold_rows ≡ stats.input)
unfolding label_many
label_many_counts rows c =
    let s : LabelStats = record {
      input = length rows;
      warm_rows = 0;
      partial_rows = 0;
      cold_rows = 0;
    } in
    let w = label_rows_counts warm rows s c in
    let p = label_rows_counts partial rows s c in
    let d = label_rows_counts cold rows s c in
    let items = (label_rows rows s c).1 in
    (
      λ lane.
          sort_rows-count lane items no_lanes no_counts
          ∙ same_count lane (length (in_lane lane items))
          ∙ sym (
              (label_rows_counts lane rows s c).0
              ∙ no_stat lane (length (in_lane lane items)) (length rows)),
      w.2,
      w.1,
      omega (arith, w.0, p.0, d.0, w.1, w.2, length-lanes items),
    )
