-- ===== src/Universe/Selection.antt =====
-- Which pools `UniverseObservationScheduler` of app/universe/scheduler.py observes next.
use coinoskobi_dexbot.Common.{
  ℕ, ◌-◌, Bool, true, false, not, ◌&&◌, ◌||◌, Option, none, some, List, [], ◌∷◌, ◌++◌, map,
  if◌then◌else◌, leb, length, take, nat_eq,
}
use coinoskobi_dexbot.Common.Int.{ℤ, pos, neg}
use coinoskobi_dexbot.Common.Lex.{lex_leb}
use coinoskobi_dexbot.Common.Text.{Text, codes, text_eq, lower}
use coinoskobi_dexbot.Universe.Registry.{
  MarketState, cold, warm, hot, Branch, new, existing, Pool, Display,
}

pub record Scheduler : Type 0 where
  pub pools : List Pool
  pub display : List Display
  pub cold_seconds : ℕ
  pub warm_seconds : ℕ
  pub hot_seconds : ℕ
  pub missing_retry_seconds : ℕ
  pub prefer_depth : Bool
  pub prefer_new_breadth : Bool

-- `DEX_PANCAKESWAP_V2` and `DEX_PANCAKESWAP_V3`, `USDT.strip().lower()`
abbrev pub dex_v2 : Text
dex_v2 = codes "pancakeswap_v2"

abbrev pub dex_v3 : Text
dex_v3 = codes "pancakeswap_v3"

abbrev pub usdt : Text
usdt = codes "0x55d398326f99059ff775485246999027b3197955"

-- `_quote_filter_sql`: one token is USDT and the other is not; a missing token fails the test.
unfoldable pub is_quoted : Option Text → Option Text → Bool
unfolding lower
is_quoted none other = false
is_quoted (some token) none = false
is_quoted (some token) (some other) =
    text_eq (lower token) usdt && not (text_eq (lower other) usdt)
    || text_eq (lower other) usdt && not (text_eq (lower token) usdt)

-- `next_observation_at <= ?`
abbrev pub is_past : ℕ → Option ℕ → Bool
is_past now none = false
is_past now (some time) = leb time now

abbrev pub is_null : Option ℕ → Bool
is_null none = true
is_null (some time) = false

unfoldable pub has_history_due : ℕ → Pool → Bool
unfolding is_quoted
has_history_due now row =
    not (is_null row.latest_snapshot_at)
    && is_past now row.next_observation_at
    && is_quoted row.token0 row.token1

abbrev pub branch_eq : Branch → Branch → Bool
branch_eq new new = true
branch_eq existing existing = true
branch_eq new existing = false
branch_eq existing new = false

unfoldable pub is_unseen_due : ℕ → Branch → Text → Pool → Bool
unfolding is_quoted
is_unseen_due now branch dex row =
    text_eq row.dex dex
    && is_null row.latest_snapshot_at
    && branch_eq row.discovery_branch branch
    && (is_null row.next_observation_at || is_past now row.next_observation_at)
    && is_quoted row.token0 row.token1

unfoldable pub select {ℓ} : {A : Type ℓ} → (A → Bool) → List A → List A
select p [] = []
select p (row ∷ rows) = let rest = select p rows in if p row then row ∷ rest else rest

-- `ORDER BY` and `list.sort`, on tuples as keys.
unfoldable pub insert_by {ℓ} : {A : Type ℓ} → (A → List ℤ) → A → List A → List A
insert_by key x [] = x ∷ []
insert_by key x (y ∷ rows) =
    let rest = insert_by key x rows in if lex_leb (key x) (key y) then x ∷ y ∷ rows else y ∷ rest

unfoldable pub sort_by {ℓ} : {A : Type ℓ} → (A → List ℤ) → List A → List A
unfolding insert_by
sort_by key [] = []
sort_by key (x ∷ rows) = insert_by key x (sort_by key rows)

abbrev pub state_rank : MarketState → ℤ
state_rank hot = pos 0
state_rank warm = pos 1
state_rank cold = pos 2

abbrev pub time_key : Option ℕ → ℤ
time_key none = pos 0
time_key (some time) = pos time

abbrev pub history_key : Pool → List ℤ
history_key row =
    state_rank row.market_state
    ∷ time_key row.next_observation_at
    ∷ time_key row.latest_snapshot_at
    ∷ pos row.creation_block
    ∷ []

-- `_due_with_history`
unfoldable pub due_with_history : ℕ → ℕ → List Pool → List Pool
unfolding has_history_due select sort_by
due_with_history now limit pools =
    take limit (sort_by history_key (select (has_history_due now) pools))

abbrev pub block_key : Branch → Pool → ℤ
block_key new row = neg (pos row.creation_block)
block_key existing row = pos row.creation_block

-- The query of a branch and a dex.
unfoldable pub unseen_of : ℕ → ℕ → Branch → Text → List Pool → List Pool
unfolding is_unseen_due select sort_by
unseen_of now limit branch dex pools =
    take limit
      (sort_by (λ row. block_key branch row ∷ []) (select (is_unseen_due now branch dex) pools))

-- `_due_unseen_branch`
unfoldable pub due_unseen_branch : ℕ → ℕ → Branch → List Pool → List Pool
unfolding unseen_of
due_unseen_branch now limit branch pools = take limit (
    sort_by (λ row. block_key branch row ∷ map pos row.pool)
      (unseen_of now limit branch dex_v2 pools ++ unseen_of now limit branch dex_v3 pools))

abbrev pub first_branch : Bool → Branch
first_branch prefer_new = if prefer_new then new else existing

abbrev pub second_branch : Bool → Branch
second_branch prefer_new = if prefer_new then existing else new

-- `_due_breadth`; without remaining room the second branch contributes nothing.
unfoldable pub due_breadth : ℕ → ℕ → Scheduler → Scheduler × List Pool
unfolding due_unseen_branch
due_breadth now limit s =
    let first = due_unseen_branch now limit (first_branch s.prefer_new_breadth) s.pools in
    let second =
      due_unseen_branch now (limit - length first) (second_branch s.prefer_new_breadth) s.pools in
    (record s { prefer_new_breadth = not s.prefer_new_breadth }, first ++ second)

-- `_select_due`
unfoldable pub select_due : ℕ → ℕ → Scheduler → Scheduler × List Pool
unfolding due_with_history due_breadth
select_due now limit s =
    let s' = record s { prefer_depth = not s.prefer_depth } in
    let due = due_with_history now limit s.pools in
    if s.prefer_depth && not (nat_eq (length due) 0) then (s', due) else due_breadth now limit s'
