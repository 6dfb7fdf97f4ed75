-- ===== src/Universe/Ingest.antt =====
-- The admission of pools to the registry: `_normalize_pool`, `ingest` and `_write_checkpoint` of
-- app/universe/registry.py, on the columns that the scheduler reads.
use coinoskobi_dexbot.Common.{
  ℕ, Bool, ◌&&◌, Option, none, some, List, [], ◌∷◌, ◌++◌, if◌then◌else◌, leb, nat_eq, length,
}
use mathlib.Core.Option
use coinoskobi_dexbot.Common.Int.{ℤ, pos, pos_part, leb_ℤ}
use coinoskobi_dexbot.Common.Text.{Text, text_eq, upper, strip}
use coinoskobi_dexbot.Universe.Registry.{cold, Branch, Pool, is_at, exists, update_where}
use coinoskobi_dexbot.Universe.Selection.{branch_eq}
use coinoskobi_dexbot.Universe.Schema.{
  canonical_address, optional_address, canonical_chain, canonical_dex, canonical_discovery_branch,
}

-- An error ends the computation.
infixl 5 ◌>>=◌
abbrev pub ◌>>=◌ {ℓ κ} : {A : Type ℓ} {B : Type κ} → Option A → (A → Option B) → Option B
none >>= f = none
some a >>= f = f a

-- A row of a discovery, as `get` reads it: an absent chain is `bsc`, and any other absent text is
-- blank.
pub record Discovered : Type 0 where
  pub chain : Text
  pub dex : Text
  pub pool : Text
  pub token0 : Text
  pub token1 : Text
  pub factory : Text
  pub fee_tier : Option ℤ
  pub creation_block : ℤ
  pub discovery_branch : Text
  pub next_observation_at : Option ℕ

-- A checkpoint to write, as `get` reads it: an absent chain is `bsc`, and an absent branch `EXISTING`.
pub record CheckpointRow : Type 0 where
  pub chain : Text
  pub dex : Text
  pub factory : Text
  pub event_kind : Text
  pub discovery_branch : Text
  pub last_scanned_block : ℤ
  pub last_finalized_block : ℤ

pub record Checkpoint : Type 0 where
  pub chain : Text
  pub dex : Text
  pub factory : Text
  pub event_kind : Text
  pub discovery_branch : Branch
  pub last_scanned_block : ℕ
  pub last_finalized_block : ℕ

pub record Universe : Type 0 where
  pub pools : List Pool
  pub checkpoints : List Checkpoint

-- A block or a fee tier that is not negative.
abbrev pub non_negative : ℤ → Option ℕ
non_negative x = if leb_ℤ (pos 0) x then some (pos_part x) else none

abbrev pub valid_fee : Option ℤ → Option (Option ℕ)
valid_fee none = some none
valid_fee (some x) = Option.map some (non_negative x)

-- `_normalize_pool`: `none` is a `ValueError`.
unfoldable pub normalize_pool : Discovered → Option Pool
unfolding canonical_address optional_address canonical_chain canonical_dex
    canonical_discovery_branch
normalize_pool row = do
  block ← non_negative row.creation_block
  fee ← valid_fee row.fee_tier
  chain ← canonical_chain row.chain
  dex ← canonical_dex row.dex
  pool ← canonical_address row.pool
  token0 ← optional_address row.token0
  token1 ← optional_address row.token1
  factory ← canonical_address row.factory
  branch ← canonical_discovery_branch row.discovery_branch
  some (record {
    chain = chain;
    dex = dex;
    pool = pool;
    token0 = token0;
    token1 = token1;
    market_state = cold;
    discovery_branch = branch;
    creation_block = block;
    latest_snapshot_at = none;
    next_observation_at = row.next_observation_at;
  })

unfoldable pub normalize_pools : List Discovered → Option (List Pool)
unfolding normalize_pool
normalize_pools [] = some []
normalize_pools (row ∷ rows) = do
  pool ← normalize_pool row
  pools ← normalize_pools rows
  some (pool ∷ pools)

-- `COALESCE(excluded.x, x)`
abbrev pub or_else {ℓ} : {A : Type ℓ} → Option A → Option A → Option A
or_else none old = old
or_else (some x) old = some x

-- `DO UPDATE SET`
abbrev pub merged : Pool → Pool → Pool
merged excluded row = record row {
  token0 = or_else excluded.token0 row.token0;
  token1 = or_else excluded.token1 row.token1;
  next_observation_at = or_else excluded.next_observation_at row.next_observation_at;
}

unfoldable pub upsert : Pool → List Pool → List Pool
unfolding is_at exists update_where
upsert row pools =
    let at = is_at row.chain row.dex row.pool in
    if exists at pools then update_where at (merged row) pools else pools ++ (row ∷ [])

unfoldable pub upsert_all : List Pool → List Pool → List Pool
unfolding upsert
upsert_all [] pools = pools
upsert_all (row ∷ rows) pools = upsert_all rows (upsert row pools)

-- The checks of `_write_checkpoint`.
unfoldable pub checkpoint_of : CheckpointRow → Option Checkpoint
unfolding canonical_address canonical_chain canonical_dex canonical_discovery_branch
checkpoint_of row = do
  scanned ← non_negative row.last_scanned_block
  finalized ← non_negative row.last_finalized_block
  ordered ← if leb finalized scanned then some finalized else none
  chain ← canonical_chain row.chain
  dex ← canonical_dex row.dex
  factory ← canonical_address row.factory
  branch ← canonical_discovery_branch row.discovery_branch
  kind ←
      if nat_eq (length (upper (strip row.event_kind))) 0
      then none
      else some (upper (strip row.event_kind))
  some (record {
    chain = chain;
    dex = dex;
    factory = factory;
    event_kind = kind;
    discovery_branch = branch;
    last_scanned_block = scanned;
    last_finalized_block = ordered;
  })

abbrev pub same_checkpoint : Checkpoint → Checkpoint → Bool
same_checkpoint a b =
    text_eq a.chain b.chain
    && text_eq a.dex b.dex
    && text_eq a.factory b.factory
    && text_eq a.event_kind b.event_kind
    && branch_eq a.discovery_branch b.discovery_branch

-- `_write_checkpoint`
unfoldable pub write_checkpoint : Checkpoint → List Checkpoint → List Checkpoint
write_checkpoint c [] = c ∷ []
write_checkpoint c (x ∷ xs) =
    let rest = write_checkpoint c xs in if same_checkpoint c x then c ∷ xs else x ∷ rest

unfoldable pub with_checkpoint : Option CheckpointRow → List Checkpoint → Option (List Checkpoint)
unfolding checkpoint_of write_checkpoint
with_checkpoint none checkpoints = some checkpoints
with_checkpoint (some row) checkpoints =
    Option.map (λ c. write_checkpoint c checkpoints) (checkpoint_of row)

-- `ingest`: the number of pools, or an error, which rolls the transaction back.
unfoldable pub ingest : List Discovered → Option CheckpointRow → Universe → Universe × Option ℕ
unfolding normalize_pools upsert_all with_checkpoint
ingest found checkpoint u = elim (normalize_pools found) [
  | none ↦ (u, none)
  | some rows ↦ elim (with_checkpoint checkpoint u.checkpoints) [
    | none ↦ (u, none)
    | some checkpoints ↦
        (record { pools = upsert_all rows u.pools; checkpoints = checkpoints }, some (length rows))
  ]
]
