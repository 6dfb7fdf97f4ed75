-- ===== src/Universe/Registry.antt =====
-- The rows of `universe_pool_registry` (app/universe/registry.py) that the scheduler reads, and the
-- writes of `record_observations` and `schedule_observations`. Chains, dexes and addresses are in
-- their canonical form; a time is in microseconds, as the time stamps order.
use coinoskobi_dexbot.Common.{
  ℕ, Bool, true, false, not, ◌&&◌, ◌||◌, nat_eq, length, Option, none, some, List, [], ◌∷◌,
  if◌then◌else◌,
}
use coinoskobi_dexbot.Common.Text.{Text, text_eq, strip}

pub data MarketState : Type 0 where
  cold warm hot : MarketState

pub data Branch : Type 0 where
  new existing : Branch

pub record Pool : Type 0 where
  pub chain : Text
  pub dex : Text
  pub pool : Text
  pub token0 : Option Text
  pub token1 : Option Text
  pub market_state : MarketState
  pub discovery_branch : Branch
  pub creation_block : ℕ
  pub latest_snapshot_at : Option ℕ
  pub next_observation_at : Option ℕ

-- A snapshot of the client; an absent text is blank.
pub record Snapshot : Type 0 where
  pub chain : Text
  pub dex : Text
  pub pool : Text
  pub source : Text
  pub observed_at : Option ℕ
  pub base_token : Text
  pub quote_token : Text
  pub base_symbol : Text
  pub quote_symbol : Text
  pub base_name : Text
  pub quote_name : Text
  pub display_name : Text

-- A row of `universe_pool_display_metadata_v1`, without the time of the write.
pub record Display : Type 0 where
  pub chain : Text
  pub dex : Text
  pub pool : Text
  pub base_token : Option Text
  pub quote_token : Option Text
  pub base_symbol : Option Text
  pub quote_symbol : Option Text
  pub base_name : Option Text
  pub quote_name : Option Text
  pub display_name : Option Text
  pub source : Text
  pub observed_at : Option ℕ

-- `WHERE chain=? AND dex=? AND pool=?`
unfoldable pub is_at : Text → Text → Text → Pool → Bool
is_at chain dex pool row = text_eq row.chain chain && text_eq row.dex dex && text_eq row.pool pool

unfoldable pub exists : (Pool → Bool) → List Pool → Bool
exists p [] = false
exists p (row ∷ rows) = p row || exists p rows

unfoldable pub update_where : (Pool → Bool) → (Pool → Pool) → List Pool → List Pool
update_where p f [] = []
update_where p f (row ∷ rows) = (if p row then f row else row) ∷ update_where p f rows

abbrev pub next_at : ℕ → Pool → Pool
next_at time row = record row { next_observation_at = some time }

-- `schedule_observations`: one row after the other; an unknown one raises, and nothing is written.
unfoldable pub schedule_observations : ℕ → List Pool → List Pool → Option (List Pool)
unfolding is_at exists update_where
schedule_observations time [] pools = some pools
schedule_observations time (row ∷ rows) pools =
    let at = is_at row.chain row.dex row.pool in
    let rest = schedule_observations time rows (update_where at (next_at time) pools) in
    if exists at pools then rest else none

abbrev pub observed : Option ℕ → ℕ → Pool → Pool
observed observed_at time row = record row {
  latest_snapshot_at = observed_at;
  next_observation_at = some time;
}

abbrev pub is_given : Option ℕ → Bool
is_given none = false
is_given (some time) = true

abbrev pub is_blank : Text → Bool
is_blank value = nat_eq (length value) 0

-- `not values["source"] or not values["observed_at"]` raises.
unfoldable pub is_sourced : Snapshot → Bool
is_sourced s = not (is_blank (strip s.source)) && is_given s.observed_at

unfoldable pub all_sourced : List Snapshot → Bool
unfolding is_sourced
all_sourced [] = true
all_sourced (s ∷ snapshots) = is_sourced s && all_sourced snapshots

-- The transaction of `record_observations`, with the next time of each snapshot's pool.
unfoldable pub record_rows : (Text → ℕ) → List Snapshot → List Pool → Option (List Pool)
unfolding is_at exists update_where
record_rows next_times [] pools = some pools
record_rows next_times (s ∷ snapshots) pools =
    let at = is_at s.chain s.dex s.pool in
    let rest =
      record_rows next_times snapshots
        (update_where at (observed s.observed_at (next_times s.pool)) pools) in
    if exists at pools then rest else none

-- `record_observations`: the values are checked before the transaction.
unfoldable pub record_observations : (Text → ℕ) → List Snapshot → List Pool → Option (List Pool)
unfolding all_sourced record_rows
record_observations next_times snapshots pools =
    if all_sourced snapshots then record_rows next_times snapshots pools else none
