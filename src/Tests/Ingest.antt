-- ===== src/Tests/Ingest.antt =====
-- The registry of app/universe/registry.py on a small discovery.
use coinoskobi_dexbot.Common.{◌≡◌, refl, none, some, [], ◌∷◌}
use coinoskobi_dexbot.Common.Int.{pos}
use coinoskobi_dexbot.Common.Text.{codes, strip, lower, upper}
use coinoskobi_dexbot.Universe.Registry.{hot, new, Pool, exists}
use coinoskobi_dexbot.Universe.Selection.{dex_v2}
use coinoskobi_dexbot.Universe.Ingest.{Discovered, CheckpointRow, Universe, ingest}
use coinoskobi_dexbot.Universe.Tables.{IsSound, IsIngested, ingest_lem}

abbrev known : Pool
known = record {
  chain = codes "bsc";
  dex = dex_v2;
  pool = codes "0xb1b1b1b1b1b1b1b1b1b1b1b1b1b1b1b1b1b1b1b1";
  token0 = none;
  token1 = none;
  market_state = hot;
  discovery_branch = new;
  creation_block = 7;
  latest_snapshot_at = some 10;
  next_observation_at = some 90;
}

abbrev found : Discovered
found = record {
  chain = codes " BSC";
  dex = codes "pancakeswap_v2";
  pool = codes "0xB1b1b1b1b1b1b1b1b1b1b1b1b1b1b1b1b1b1b1b1";
  token0 = codes "0xC2c2c2c2c2c2c2c2c2c2c2c2c2c2c2c2c2c2c2c2";
  token1 = [];
  factory = codes "0xd3d3d3d3d3d3d3d3d3d3d3d3d3d3d3d3d3d3d3d3";
  fee_tier = none;
  creation_block = pos 9;
  discovery_branch = codes "existing";
  next_observation_at = none;
}

abbrev checkpoint : CheckpointRow
checkpoint = record {
  chain = codes "bsc";
  dex = codes "pancakeswap_v2";
  factory = codes "0xd3d3d3d3d3d3d3d3d3d3d3d3d3d3d3d3d3d3d3d3";
  event_kind = codes "pair_created";
  discovery_branch = codes "NEW";
  last_scanned_block = pos 20;
  last_finalized_block = pos 8;
}

abbrev universe : Universe
universe = record { pools = known ∷ []; checkpoints = [] }

-- A known pool gets a token that it lacked, and keeps the rest.
merged_row :
    (ingest (found ∷ []) (some checkpoint) universe).0.pools
    ≡ record known { token0 = some (codes "0xc2c2c2c2c2c2c2c2c2c2c2c2c2c2c2c2c2c2c2c2") } ∷ []
unfolding ingest strip lower upper
merged_row = refl

-- A finalized block beyond the scanned one is an error.
refused :
    ingest (found ∷ []) (some (record checkpoint { last_finalized_block = pos 21 })) universe
    ≡ (universe, none)
unfolding ingest strip lower upper
refused = refl

sound : IsSound universe
unfolding exists
sound = ((refl, tt), tt)

ingest_example :
    IsSound (ingest (found ∷ []) (some checkpoint) universe).0
    × IsIngested
        (found ∷ [])
        (some checkpoint)
        universe
        (ingest (found ∷ []) (some checkpoint) universe).0
        (ingest (found ∷ []) (some checkpoint) universe).1
ingest_example = ingest_lem (found ∷ []) (some checkpoint) universe sound
