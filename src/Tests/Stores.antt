-- ===== src/Tests/Stores.antt =====
-- The cache of app/cache/analyzer_cache.py, the labels of app/pipeline/conveyor.py and the buffer of
-- app/dex/event_buffer.py on small inputs.
use coinoskobi_dexbot.Common.{ℕ, true, false, ◌≡◌, ◌≢◌, ◌⊎◌, refl, none, some, List, [], ◌∷◌}
use mathlib.Core.Option
use coinoskobi_dexbot.Common.Int.{pos}
use coinoskobi_dexbot.Common.Dict.{lookup}
use coinoskobi_dexbot.Common.Text.{codes}
use coinoskobi_dexbot.Row.{Row, missing, null, given}
use coinoskobi_dexbot.Cache.Table.{
  CacheKey, key_Eq, Versioned, Cache, get, repay, replace_payload_if_version,
}
use coinoskobi_dexbot.Cache.Laws.{replace_if_version_lem}
use coinoskobi_dexbot.Conveyor.Labels.{Reading, Readings}
use coinoskobi_dexbot.Buffer.Defs.{Buffer, init, push_all}
use coinoskobi_dexbot.Buffer.Laws.{IsPushed, init-IsValid, push_all_lem}

abbrev token_key : CacheKey
token_key = (codes "token", codes "bsc:0xa1")

abbrev pair_key : CacheKey
pair_key = (codes "pair", codes "bsc:0xa1")

abbrev stocked : Cache
stocked = record {
  table =
      (token_key, record { payload = codes "safe"; updated_at = 100 })
      ∷ (pair_key, record { payload = codes "deep"; updated_at = 90 })
      ∷ [];
  hits = 0;
  misses = 0;
  stale = 0;
  writes = 2;
}

-- The pair's entry is too old at 110, the token's is not.
fresh_and_old :
    ((get 110 token_key 30 stocked).1 ≡ some (codes "safe"))
    × ((get 110 pair_key 15 stocked).1 ≡ none)
unfolding get
fresh_and_old = (refl, refl)

abbrev swapped : Cache × ℕ
swapped = replace_payload_if_version token_key (codes "risky") 100 stocked

replace_if_version_example :
    ((row : Versioned) × (lookup token_key stocked.table ≡ some row)
      × (row.updated_at ≡ 100)
      × (swapped.1 ≡ 1)
      × (lookup token_key (swapped.0).table ≡ some (repay (codes "risky") row)))
    ⊎ ((swapped.1 ≡ 0)
        × (swapped.0 ≡ stocked)
        × (Option.map (λ (row : Versioned). row.updated_at) (lookup token_key stocked.table)
            ≢ some 100))
replace_if_version_example = replace_if_version_lem token_key (codes "risky") 100 stocked

abbrev seen : Row
seen = record {
  token = given (codes "0xA1");
  pool = missing;
  chain = null;
  market_state = missing;
  seismic_score = missing;
  liquidity = missing;
  volume_24h = missing;
  volume24 = missing;
  buys_24h = missing;
  buys24 = missing;
  identity = missing;
  conveyor = missing;
  others = [];
}

abbrev at_110 : Reading
at_110 = record { raises = false; now = 110 }

abbrev calm_reads : Readings
calm_reads = record { token_read = at_110; pair_read = at_110; risk_read = at_110 }

abbrev broken_reads : Readings
broken_reads = record calm_reads { token_read = record { raises = true; now = 110 } }

abbrev two_reads : List (Readings × Row)
two_reads = (calm_reads, seen) ∷ (broken_reads, seen) ∷ []

abbrev pair_buffer : Buffer ℕ
pair_buffer = init (pos 2)

push_all_example :
    (b' : Buffer ℕ) × (push_all (7 ∷ 8 ∷ 9 ∷ []) pair_buffer ≡ some b')
    × IsPushed (7 ∷ 8 ∷ 9 ∷ []) pair_buffer b'
push_all_example = push_all_lem (7 ∷ 8 ∷ 9 ∷ []) pair_buffer (init-IsValid (pos 2))

abbrev three : Buffer ℕ
three = record { max_size = 5; items = 7 ∷ 8 ∷ 9 ∷ []; dropped = 0 }
