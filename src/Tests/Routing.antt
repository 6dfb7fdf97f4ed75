-- ===== src/Tests/Routing.antt =====
-- The router of app/universe/hot_path.py on a small registry.
use coinoskobi_dexbot.Common.{◌+◌, min, Bool, ◌≡◌, refl, ◌⊎◌, none, some, List, [], ◌∷◌, arith}
use coinoskobi_dexbot.Common.Int.{pos}
use coinoskobi_dexbot.Common.Lex.{lex_leb}
use coinoskobi_dexbot.Common.Text.{Text, codes, text_eq, strip}
use coinoskobi_dexbot.Universe.Registry.{MarketState, cold, warm, hot}
use coinoskobi_dexbot.Universe.Selection.{usdt, dex_v2}
use coinoskobi_dexbot.Universe.Routing.{
  UniverseRow, hot_seismic, universe_bootstrap, bootstrap_native_wss_limit, native_wss_targets,
}
use coinoskobi_dexbot.Universe.Searching.{IsWithin, native_wss_targets_lem}

abbrev row_of : Text → MarketState → UniverseRow
row_of address state = record {
  chain = codes "bsc";
  dex = dex_v2;
  pool = address;
  token0 = some (codes "0xAA");
  token1 = some usdt;
  market_state = state;
  seismic_score = pos 5000000000;
  latest_price_usd = none;
  latest_liquidity_usd = none;
  latest_volume_24h = none;
  latest_txns_5m = none;
  latest_change_5m = none;
  latest_snapshot_at = none;
  creation_block = 7;
}

abbrev rows : List UniverseRow
rows = row_of (codes "0xb1") hot ∷ row_of (codes "0xb2") warm ∷ row_of (codes "0xb3") cold ∷ []

abbrev verify : Text → Text → Text → Bool
verify pool token quote = text_eq pool (codes "0xb2")

-- The HOT row is not verified, and the search falls back to the others.
fallen_back : native_wss_targets verify 2 rows ≡ record {
  asked = 3;
  targets =
      record {
        pair = codes "0xb2";
        token = codes "0xaa";
        quote_token = usdt;
        market_state = warm;
        seismic_score = pos 0;
        selection_reason = universe_bootstrap;
      }
      ∷ [];
}
unfolding native_wss_targets strip lex_leb
fallen_back = refl

native_wss_targets_example :
    IsWithin verify hot_seismic 2 2 (native_wss_targets verify 2 rows)
    ⊎ IsWithin verify universe_bootstrap
        (min 2 bootstrap_native_wss_limit)
        (2 + min 2 bootstrap_native_wss_limit)
        (native_wss_targets verify 2 rows)
native_wss_targets_example = native_wss_targets_lem verify 2 rows (omega arith)
