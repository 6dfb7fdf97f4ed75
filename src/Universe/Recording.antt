-- ===== src/Universe/Recording.antt =====
-- What a run of app/universe/scheduler.py leaves of the pools that it observed.
use coinoskobi_dexbot.Common.{
  ℕ, ◌≤◌, ◌<◌, true, false, ◌≡◌, refl, sym, ◌∙◌, ap, ◌⊎◌, inl, inr, some, List, [], ◌∷◌, All, In,
  arith, Bool-cases, Option-cases,
}
use coinoskobi_dexbot.Common.Text.{Text, text_eq, text_eq_iff}
use coinoskobi_dexbot.Universe.Registry.{
  MarketState, cold, warm, hot, Pool, Snapshot, is_at, exists, update_where, observed, record_rows,
  is_sourced, all_sourced, record_observations,
}
use coinoskobi_dexbot.Universe.Selection.{Scheduler}
use coinoskobi_dexbot.Universe.Observing.{interval, row_of, next_time, all_asked, is_missing}
use coinoskobi_dexbot.Universe.Resting.{
  key_of, Rests, observed-Delays, update-Rests, updated-Rests, Registered, Registered-update,
}
use coinoskobi_dexbot.Common.{All-In}

-- A snapshot of a row that was asked for, and rows of which no two share an address.
abbrev pub IsAsked : List Pool → Snapshot → Type 0
IsAsked due s = (r : Pool) × In r due × (r.chain ≡ s.chain) × (r.dex ≡ s.dex) × (r.pool ≡ s.pool)

abbrev pub IsSingle : List Pool → Type 0
IsSingle due =
    All
      (λ r.
        All (λ q. (text_eq r.pool q.pool ≡ false) ⊎ ((r.chain ≡ q.chain) × (r.dex ≡ q.dex))) due)
      due

row_of-In :
    (pool : Text) (r : Pool) (due : List Pool)
    → In r due
    → r.pool ≡ pool
    → (q : Pool) × (row_of pool due ≡ some q)
unfolding row_of
row_of-In pool r [] m e = absurd m
row_of-In pool r (x ∷ due) m e = elim (Option-cases (row_of pool due)) [
  | inr (q, found) ↦ (q, rw (row_of, found) refl)
  | inl none_found ↦ elim m [
    | inl here ↦
        let same : text_eq x.pool pool ≡ true =
          (text_eq_iff x.pool pool).1 (ap (λ (p : Pool). p.pool) (sym here) ∙ e) in
        (x, rw (row_of, none_found, same) refl)
    | inr more ↦ let (q, found) = row_of-In pool r due more e in absurd cc
  ]
]

-- The rows that the snapshots are of rest, and what rested still does.
pub record IsRecorded (now : ℕ) (due pools' : List Pool) (snapshots : List Snapshot)
    (pools : List Pool) : Type 0 where
  pub registered : Registered due pools'
  pub kept : (r : Pool) → Rests now r pools → Rests now r pools'
  pub rest : (r : Pool) → In r due → is_missing snapshots r ≡ false → Rests now r pools'

-- The key of a snapshot is that of the row with its address.
same_key :
    (due : List Pool) (s : Snapshot) (r row : Pool)
    → IsSingle due
    → IsAsked due s
    → In r due
    → text_eq r.pool s.pool ≡ true
    → is_at s.chain s.dex s.pool row ≡ key_of r row
same_key due s r row single (q, m', chain, dex, pool) m e =
    let named : r.pool ≡ s.pool = (text_eq_iff r.pool s.pool).0 e in
    elim (All-In _ due (All-In _ due single m) m') [
      | inl differ ↦ absurd (ground (arith, text_eq_iff r.pool q.pool))
      | inr (chain', dex') ↦ cc
    ]

none_missing : (r : Pool) → is_missing [] r ≡ false → ⊥
unfolding is_missing
none_missing r e = cc

missing_tail :
    (s : Snapshot) (snapshots : List Snapshot) (r : Pool)
    → text_eq r.pool s.pool ≡ false
    → is_missing (s ∷ snapshots) r ≡ false
    → is_missing snapshots r ≡ false
unfolding is_missing
missing_tail s snapshots r other h = ground arith

asked_exists :
    (due : List Pool) (s : Snapshot) (pools : List Pool)
    → IsAsked due s
    → Registered due pools
    → exists (is_at s.chain s.dex s.pool) pools ≡ true
asked_exists due s pools (q, m, chain, dex, pool) a =
    rw (sym chain, sym dex, sym pool) (All-In _ due a m)

pub record_lem :
    (now : ℕ) (due : List Pool) (next_times : Text → ℕ) (snapshots : List Snapshot)
    (pools : List Pool)
    → IsSingle due
    → All (IsAsked due) snapshots
    → All (λ s. now < next_times s.pool) snapshots
    → Registered due pools
    → (pools' : List Pool) × (record_rows next_times snapshots pools ≡ some pools')
      × IsRecorded now due pools' snapshots pools
unfolding record_rows
record_lem now due next_times [] pools single asked times a = (
  pools,
  refl,
  record { registered = a; kept = λ r v. v; rest = λ r m e. absurd (none_missing r e) },
)
record_lem now due next_times (s ∷ snapshots) pools single asked times a =
    let d = observed-Delays now s.observed_at (next_times s.pool) times.0 in
    let at = is_at s.chain s.dex s.pool in
    let f = observed s.observed_at (next_times s.pool) in
    let pools₁ = update_where at f pools in
    let (pools', e, v) =
      record_lem now due next_times snapshots pools₁ single asked.1 times.1
        (Registered-update now at f due pools d a) in
    let found : exists at pools ≡ true = asked_exists due s pools asked.0 a in
    (
      pools',
      rw found e,
      record {
        registered = v.registered;
        kept = λ r w. v.kept r (update-Rests now at f r pools d w);
        rest = λ r m h. elim (Bool-cases (text_eq r.pool s.pool)) [
          | inl same ↦
              v.kept r (
                updated-Rests now at f r pools (λ row. same_key due s r row single asked.0 m same)
                  d)
          | inr other ↦ v.rest r m (missing_tail s snapshots r other h)
        ];
      },
    )

all_sourced-All :
    (snapshots : List Snapshot)
    → All (λ s. is_sourced s ≡ true) snapshots
    → all_sourced snapshots ≡ true
unfolding all_sourced
all_sourced-All [] a = refl
all_sourced-All (s ∷ snapshots) a = rw a.0 (all_sourced-All snapshots a.1)

-- With a source and a time in each snapshot the transaction is done.
pub recorded_rows :
    (next_times : Text → ℕ) (snapshots : List Snapshot) (pools : List Pool)
    → All (λ s. is_sourced s ≡ true) snapshots
    → record_observations next_times snapshots pools ≡ record_rows next_times snapshots pools
unfolding record_observations
recorded_rows next_times snapshots pools a = rw (all_sourced-All snapshots a) refl

pub asked-All :
    (due : List Pool) (snapshots : List Snapshot)
    → All (IsAsked due) snapshots
    → all_asked due snapshots ≡ true
unfolding all_asked
asked-All due [] a = refl
asked-All due (s ∷ snapshots) ((q, m, chain, dex, pool), a) =
    let (row, found) = row_of-In s.pool q due m pool in
    rw (all_asked, found) (asked-All due snapshots a)

-- The intervals are positive, as the constructor asks.
abbrev pub IsPaced : Scheduler → Type 0
IsPaced s =
    (1 ≤ s.cold_seconds)
    × (1 ≤ s.warm_seconds)
    × (1 ≤ s.hot_seconds)
    × (1 ≤ s.missing_retry_seconds)

interval_positive : (state : MarketState) (s : Scheduler) → IsPaced s → 1 ≤ interval state s
interval_positive cold s (c, w, h, m) = c
interval_positive warm s (c, w, h, m) = w
interval_positive hot s (c, w, h, m) = h

pub times_later :
    (now : ℕ) (due : List Pool) (s : Scheduler) (snapshots : List Snapshot)
    → IsPaced s
    → All (IsAsked due) snapshots
    → All (λ x. now < next_time now due s x.pool) snapshots
unfolding next_time
times_later now due s [] paced a = tt
times_later now due s (x ∷ snapshots) paced ((q, m, chain, dex, pool), a) =
    let (row, found) = row_of-In x.pool q due m pool in
    let later = interval_positive row.market_state s paced in
    (rw (next_time, found) (omega (arith, later)), times_later now due s snapshots paced a)
