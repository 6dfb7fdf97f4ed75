-- ===== src/Universe/Choosing.antt =====
-- What the scheduler of app/universe/scheduler.py selects, and when it is idle.
use coinoskobi_dexbot.Common.{
  ℕ, zero, suc, ◌-◌, ◌≤◌, Bool, true, not, ◌&&◌, ◌||◌, ◌≡◌, List, [], ◌∷◌, ◌++◌, map, length,
  length-take, length-append, take, nat_eq, All, arith, if_cases,
}
use coinoskobi_dexbot.Common.Int.{ℤ, pos}
use coinoskobi_dexbot.Common.Lex.{lex_leb}
use coinoskobi_dexbot.Common.Text.{Text}
use coinoskobi_dexbot.Universe.Registry.{Branch, Pool}
use coinoskobi_dexbot.Universe.Selection.{
  Scheduler, dex_v2, dex_v3, is_quoted, is_past, is_null, has_history_due, is_unseen_due, select,
  insert_by, sort_by, history_key, block_key, due_with_history, unseen_of, due_unseen_branch,
  first_branch, second_branch, due_breadth, select_due,
}

-- A pool that may be observed at a time.
abbrev pub IsEligible : ℕ → Pool → Type 0
IsEligible now row =
    (is_quoted row.token0 row.token1 ≡ true)
    × ((is_null row.next_observation_at || is_past now row.next_observation_at) ≡ true)

history-IsEligible : (now : ℕ) (row : Pool) → has_history_due now row ≡ true → IsEligible now row
unfolding has_history_due
history-IsEligible now row h = (ground arith, ground arith)

unseen-IsEligible :
    (now : ℕ) (branch : Branch) (dex : Text) (row : Pool)
    → is_unseen_due now branch dex row ≡ true
    → IsEligible now row
unfolding is_unseen_due
unseen-IsEligible now branch dex row h = (ground arith, ground arith)

length-due_unseen_branch :
    (now limit : ℕ) (branch : Branch) (pools : List Pool)
    → length (due_unseen_branch now limit branch pools) ≤ limit
unfolding due_unseen_branch
length-due_unseen_branch now limit branch pools = omega (
  arith,
  length-take limit (
      sort_by (λ row. block_key branch row ∷ map pos row.pool)
        (unseen_of now limit branch dex_v2 pools ++ unseen_of now limit branch dex_v3 pools)),
)

module _ {A : Type 0} (P : A → Type 0) where
  pub All-select :
      (p : A → Bool) (rows : List A) → ((row : A) → p row ≡ true → P row) → All P (select p rows)
  unfolding select
  All-select p [] h = tt
  All-select p (row ∷ rows) h =
      if_cases (All P) (p row) (λ e. (h row e, All-select p rows h)) (λ _. All-select p rows h)

  pub All-select_of : (p : A → Bool) (rows : List A) → All P rows → All P (select p rows)
  unfolding select
  All-select_of p [] a = tt
  All-select_of p (row ∷ rows) a =
      if_cases (All P) (p row) (λ _. (a.0, All-select_of p rows a.1))
        (λ _. All-select_of p rows a.1)

  All-insert_by :
      (key : A → List ℤ) (x : A) (rows : List A) → P x → All P rows → All P (insert_by key x rows)
  unfolding insert_by
  All-insert_by key x [] h a = (h, tt)
  All-insert_by key x (y ∷ rows) h a =
      if_cases (All P) (lex_leb (key x) (key y)) (λ _. (h, a))
        (λ _. (a.0, All-insert_by key x rows h a.1))

  pub All-sort_by : (key : A → List ℤ) (rows : List A) → All P rows → All P (sort_by key rows)
  unfolding sort_by
  All-sort_by key [] a = tt
  All-sort_by key (x ∷ rows) a =
      All-insert_by key x (sort_by key rows) a.0 (All-sort_by key rows a.1)

  pub All-take : (n : ℕ) (rows : List A) → All P rows → All P (take n rows)
  All-take zero rows a = tt
  All-take (suc n) [] a = tt
  All-take (suc n) (x ∷ rows) a = (a.0, All-take n rows a.1)

  All-append : (xs ys : List A) → All P xs → All P ys → All P (xs ++ ys)
  All-append [] ys a b = b
  All-append (x ∷ xs) ys a b = (a.0, All-append xs ys a.1 b)

module _ (P : Pool → Type 0) where
  -- What holds of the rows of each query holds of the selection.
  module _ (now : ℕ) (pools : List Pool)
      (unseen : (b : Branch) (dex : Text) → All P (select (is_unseen_due now b dex) pools)) where
    All-due_unseen_branch :
        (limit : ℕ) (branch : Branch) → All P (due_unseen_branch now limit branch pools)
    unfolding due_unseen_branch unseen_of
    All-due_unseen_branch limit branch =
        let of = λ (dex : Text). All-take P limit _ (
          All-sort_by P (λ row. block_key branch row ∷ [])
            (select (is_unseen_due now branch dex) pools) (unseen branch dex)) in
        All-take P limit _ (
          All-sort_by P (λ row. block_key branch row ∷ map pos row.pool)
            (unseen_of now limit branch dex_v2 pools ++ unseen_of now limit branch dex_v3 pools)
            (All-append P (unseen_of now limit branch dex_v2 pools)
              (unseen_of now limit branch dex_v3 pools) (of dex_v2) (of dex_v3)))

  pub All-select_due :
      (now limit : ℕ) (s : Scheduler)
      → All P (select (has_history_due now) s.pools)
      → ((b : Branch) (dex : Text) → All P (select (is_unseen_due now b dex) s.pools))
      → All P (select_due now limit s).1
  unfolding select_due due_breadth due_with_history
  All-select_due now limit s depth unseen =
      let first = due_unseen_branch now limit (first_branch s.prefer_new_breadth) s.pools in
      if_cases (λ (r : Scheduler × List Pool). All P r.1)
        (s.prefer_depth && not (nat_eq (length (due_with_history now limit s.pools)) 0))
        (λ _.
          All-take P limit _
            (All-sort_by P history_key (select (has_history_due now) s.pools) depth))
        (λ _.
          All-append P first
            (due_unseen_branch now (limit - length first) (second_branch s.prefer_new_breadth)
              s.pools)
            (All-due_unseen_branch now s.pools unseen limit (first_branch s.prefer_new_breadth))
            (All-due_unseen_branch now s.pools unseen (limit - length first)
              (second_branch s.prefer_new_breadth)))

length-select_due : (now limit : ℕ) (s : Scheduler) → length (select_due now limit s).1 ≤ limit
unfolding select_due due_breadth due_with_history
length-select_due now limit s =
    let depth = due_with_history now limit s.pools in
    let first = due_unseen_branch now limit (first_branch s.prefer_new_breadth) s.pools in
    let second =
      due_unseen_branch now (limit - length first) (second_branch s.prefer_new_breadth) s.pools in
    let first_le = length-due_unseen_branch now limit (first_branch s.prefer_new_breadth) s.pools in
    let second_le =
      length-due_unseen_branch now (limit - length first) (second_branch s.prefer_new_breadth)
        s.pools in
    if_cases (λ (r : Scheduler × List Pool). length r.1 ≤ limit)
      (s.prefer_depth && not (nat_eq (length depth) 0))
      (λ _.
        omega
          (arith, length-take limit (sort_by history_key (select (has_history_due now) s.pools))))
      (λ _. omega (arith, length-append first second, first_le, second_le))

-- A selection is no larger than its limit, and every pool in it is quoted in USDT on one side and
-- has no time for its next observation or one that has come.
pub select_due_lem :
    (now limit : ℕ) (s : Scheduler)
    → let due = (select_due now limit s).1 in (length due ≤ limit) × All (IsEligible now) due
select_due_lem now limit s = (
  length-select_due now limit s,
  All-select_due (IsEligible now) now limit s
      (All-select (IsEligible now) (has_history_due now) s.pools (history-IsEligible now))
      (λ b dex.
        All-select (IsEligible now) (is_unseen_due now b dex) s.pools
          (unseen-IsEligible now b dex)),
)
