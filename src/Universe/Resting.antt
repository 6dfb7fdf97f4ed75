-- ===== src/Universe/Resting.antt =====
-- The pools behind a run of app/universe/scheduler.py.
use coinoskobi_dexbot.Common.{
  ℕ, ◌<◌, Bool, true, false, ◌||◌, ◌≡◌, refl, sym, ◌∙◌, ◌⊎◌, inl, inr, some, List, [], ◌∷◌, All,
  Option, arith, if_cases, Bool-cases,
}
use coinoskobi_dexbot.Universe.Registry.{
  Pool, is_at, exists, update_where, next_at, schedule_observations, observed,
}
use coinoskobi_dexbot.Universe.Selection.{is_past, is_null}

-- The next observation of a pool has a time that has not come.
abbrev pub IsLater : ℕ → Pool → Type 0
IsLater now row = (is_null row.next_observation_at || is_past now row.next_observation_at) ≡ false

-- The rows with the key of a pool.
abbrev pub key_of : Pool → Pool → Bool
key_of row = is_at row.chain row.dex row.pool

abbrev pub Rests : ℕ → Pool → List Pool → Type 0
Rests now r rows = All (λ row. (key_of r row ≡ false) ⊎ IsLater now row) rows

-- A write that keeps the key and sets a later time.
pub record Delays (now : ℕ) (f : Pool → Pool) : Type 0 where
  pub keeps : (r row : Pool) → key_of r (f row) ≡ key_of r row
  pub later : (row : Pool) → IsLater now (f row)

next_at-Delays : (now time : ℕ) → now < time → Delays now (next_at time)
unfolding is_at
next_at-Delays now time lt = record { keeps = λ r row. refl; later = λ row. ground arith }

pub observed-Delays :
    (now : ℕ) (at : Option ℕ) (time : ℕ) → now < time → Delays now (observed at time)
unfolding is_at
observed-Delays now at time lt = record { keeps = λ r row. refl; later = λ row. ground arith }

pub update-Rests :
    (now : ℕ) (p : Pool → Bool) (f : Pool → Pool) (r : Pool) (rows : List Pool)
    → Delays now f
    → Rests now r rows
    → Rests now r (update_where p f rows)
unfolding update_where
update-Rests now p f r [] d a = tt
update-Rests now p f r (row ∷ rows) d a = (
  if_cases (λ (x : Pool). (key_of r x ≡ false) ⊎ IsLater now x) (p row) (λ _. inr (d.later row))
      (λ _. a.0),
  update-Rests now p f r rows d a.1,
)

pub updated-Rests :
    (now : ℕ) (p : Pool → Bool) (f : Pool → Pool) (r : Pool) (rows : List Pool)
    → ((row : Pool) → p row ≡ key_of r row)
    → Delays now f
    → Rests now r (update_where p f rows)
unfolding update_where
updated-Rests now p f r [] e d = tt
updated-Rests now p f r (row ∷ rows) e d = (
  if_cases (λ (x : Pool). (key_of r x ≡ false) ⊎ IsLater now x) (p row) (λ _. inr (d.later row))
      (λ miss. inl (sym (e row) ∙ miss)),
  updated-Rests now p f r rows e d,
)

exists-update :
    (now : ℕ) (p : Pool → Bool) (f : Pool → Pool) (r : Pool) (rows : List Pool)
    → Delays now f
    → exists (key_of r) (update_where p f rows) ≡ exists (key_of r) rows
unfolding exists update_where
exists-update now p f r [] d = refl
exists-update now p f r (row ∷ rows) d = elim (Bool-cases (p row)) [
  | inl hit ↦ rw (hit, d.keeps r row, exists-update now p f r rows d) refl
  | inr miss ↦ rw (miss, exists-update now p f r rows d) refl
]

-- Every row of a list is registered.
abbrev pub Registered : List Pool → List Pool → Type 0
Registered rows pools = All (λ r. exists (key_of r) pools ≡ true) rows

pub Registered-update :
    (now : ℕ) (p : Pool → Bool) (f : Pool → Pool) (rows pools : List Pool)
    → Delays now f
    → Registered rows pools
    → Registered rows (update_where p f pools)
Registered-update now p f [] pools d a = tt
Registered-update now p f (r ∷ rows) pools d a =
    (exists-update now p f r pools d ∙ a.0, Registered-update now p f rows pools d a.1)

-- What a schedule does to the rows it is about, and to those that rest already.
pub record IsScheduled (now : ℕ) (rows pools pools' : List Pool) : Type 0 where
  pub rest : All (λ r. Rests now r pools') rows
  pub kept : (r : Pool) → Rests now r pools → Rests now r pools'

pub schedule_lem :
    (now time : ℕ) (rows pools : List Pool)
    → now < time
    → Registered rows pools
    → (pools' : List Pool) × (schedule_observations time rows pools ≡ some pools')
      × IsScheduled now rows pools pools'
unfolding schedule_observations
schedule_lem now time [] pools lt a = (pools, refl, record { rest = tt; kept = λ r v. v })
schedule_lem now time (r ∷ rows) pools lt a =
    let d = next_at-Delays now time lt in
    let pools₁ = update_where (key_of r) (next_at time) pools in
    let (pools', e, v) =
      schedule_lem now time rows pools₁ lt
        (Registered-update now (key_of r) (next_at time) rows pools d a.1) in
    (
      pools',
      rw a.0 e,
      record {
        rest = (
          v.kept r (updated-Rests now (key_of r) (next_at time) r pools (λ row. refl) d),
          v.rest,
        );
        kept = λ q w. v.kept q (update-Rests now (key_of r) (next_at time) q pools d w);
      },
    )
