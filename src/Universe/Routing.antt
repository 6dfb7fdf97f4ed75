-- ===== src/Universe/Routing.antt =====
-- `HotDeepPathRouter` of app/universe/hot_path.py, and `hot_pools` of app/universe/registry.py. The
-- verifier of a pair is the environment's; a limit is at least 1, as the methods ask.
use coinoskobi_dexbot.Common.{
  ℕ, ◌+◌, min, Bool, true, false, not, ◌&&◌, Option, none, some, List, [], ◌∷◌, ◌++◌, if◌then◌else◌,
  leb, nat_eq, length, take,
}
use coinoskobi_dexbot.Common.Int.{ℤ, pos, neg, pos_part, neg_part}
use coinoskobi_dexbot.Common.Text.{Text, codes, text_eq, lower, strip}
use coinoskobi_dexbot.Universe.Registry.{MarketState, cold, warm, hot}
use coinoskobi_dexbot.Universe.Selection.{dex_v2, usdt, is_quoted, select, sort_by}

-- A row of the registry with the columns that the router reads, and with its latest score; a price,
-- a volume or a score is in units of 1e-9.
pub record UniverseRow : Type 0 where
  pub chain : Text
  pub dex : Text
  pub pool : Text
  pub token0 : Option Text
  pub token1 : Option Text
  pub market_state : MarketState
  pub seismic_score : ℤ
  pub latest_price_usd : Option ℤ
  pub latest_liquidity_usd : Option ℤ
  pub latest_volume_24h : Option ℤ
  pub latest_txns_5m : Option ℤ
  pub latest_change_5m : Option ℤ
  pub latest_snapshot_at : Option ℕ
  pub creation_block : ℕ

pub record Candidate : Type 0 where
  pub chain : Text
  pub dex : Text
  pub pool : Text
  pub token : Text
  pub quote_token : Text
  pub market_state : MarketState
  pub seismic_score : ℤ
  pub price_usd : Option ℤ
  pub liquidity : Option ℤ
  pub volume_24h : Option ℤ

pub data SelectionReason : Type 0 where
  hot_seismic universe_bootstrap : SelectionReason

-- A target; its membership is verified.
pub record Target : Type 0 where
  pub pair : Text
  pub token : Text
  pub quote_token : Text
  pub market_state : MarketState
  pub seismic_score : ℤ
  pub selection_reason : SelectionReason

abbrev pub bootstrap_native_wss_limit : ℕ
bootstrap_native_wss_limit = 16

-- `WBNB.lower()`
abbrev pub wbnb : Text
wbnb = codes "0xbb4cdb9cbd36b01bd1cbaebf2de08d9173bc095c"

-- `str(row.get("token0") or "").strip().lower()`
unfoldable pub token_text : Option Text → Text
token_text none = []
token_text (some token) = lower (strip token)

-- `token in BASE_TOKEN_SET`
unfoldable pub is_base : Text → Bool
is_base token = text_eq token usdt

unfoldable pub candidate_with : Text → Text → UniverseRow → Option Candidate
candidate_with token quote row =
    if text_eq token wbnb
    then none
    else some (record {
      chain = row.chain;
      dex = row.dex;
      pool = row.pool;
      token = token;
      quote_token = quote;
      market_state = row.market_state;
      seismic_score = row.seismic_score;
      price_usd = row.latest_price_usd;
      liquidity = row.latest_liquidity_usd;
      volume_24h = row.latest_volume_24h;
    })

-- `_candidate`
unfoldable pub candidate : UniverseRow → Option Candidate
unfolding token_text is_base candidate_with
candidate row =
    let token0 = token_text row.token0 in
    let token1 = token_text row.token1 in
    if is_base token0
    then (if is_base token1 then none else candidate_with token1 token0 row)
    else (if is_base token1 then candidate_with token0 token1 row else none)

unfoldable pub candidates_of : List UniverseRow → List Candidate
unfolding candidate
candidates_of [] = []
candidates_of (row ∷ rows) = elim (candidate row) [
  | none ↦ candidates_of rows
  | some c ↦ c ∷ candidates_of rows
]

abbrev pub is_hot_state : MarketState → Bool
is_hot_state cold = false
is_hot_state warm = false
is_hot_state hot = true

-- `WHERE market_state='HOT'`
abbrev pub is_hot : UniverseRow → Bool
is_hot row = is_hot_state row.market_state

-- `latest_snapshot_at DESC`, where `NULL` is below every time.
abbrev pub newest_first : Option ℕ → ℤ
newest_first none = pos 1
newest_first (some time) = neg (pos time)

abbrev pub hot_key : UniverseRow → List ℤ
hot_key row =
    neg row.seismic_score ∷ newest_first row.latest_snapshot_at ∷ neg (pos row.creation_block) ∷ []

-- `hot_pools`
unfoldable pub hot_pools : ℕ → List UniverseRow → List UniverseRow
unfolding select sort_by
hot_pools limit rows = take limit (sort_by hot_key (select is_hot rows))

unfoldable pub candidates : ℕ → List UniverseRow → List Candidate
unfolding hot_pools candidates_of
candidates limit rows = candidates_of (hot_pools limit rows)

-- `COALESCE(x, default)`
abbrev pub or_default : ℤ → Option ℤ → ℤ
or_default d none = d
or_default d (some x) = x

abbrev pub abs : ℤ → ℤ
abs x = pos (pos_part x + neg_part x)

unfoldable pub is_bootstrap : UniverseRow → Bool
unfolding is_quoted
is_bootstrap row = text_eq row.dex dex_v2 && not (is_hot row) && is_quoted row.token0 row.token1

abbrev pub bootstrap_key : UniverseRow → List ℤ
bootstrap_key row =
    (elim row.market_state [ cold ↦ pos 1 | warm ↦ pos 0 | hot ↦ pos 1 ])
    ∷ neg (or_default (neg (pos 1)) row.latest_txns_5m)
    ∷ neg (abs (or_default (pos 0) row.latest_change_5m))
    ∷ neg (or_default (neg (pos 1000000000)) row.latest_volume_24h)
    ∷ newest_first row.latest_snapshot_at
    ∷ neg (pos row.creation_block)
    ∷ []

-- `registry.*, 0 AS seismic_score`
unfoldable pub unscored : List UniverseRow → List UniverseRow
unscored [] = []
unscored (row ∷ rows) = record row { seismic_score = pos 0 } ∷ unscored rows

-- `_bootstrap_candidates`
unfoldable pub bootstrap_candidates : ℕ → List UniverseRow → List Candidate
unfolding is_bootstrap select sort_by unscored candidates_of
bootstrap_candidates limit rows = candidates_of (
    unscored (
      take (min limit bootstrap_native_wss_limit)
        (sort_by bootstrap_key (select is_bootstrap rows))))

-- The targets of a search, and how often it has asked the verifier.
pub record Search : Type 0 where
  pub asked : ℕ
  pub targets : List Target

abbrev pub no_search : Search
no_search = record { asked = 0; targets = [] }

abbrev pub target_of : SelectionReason → Candidate → Target
target_of reason c = record {
  pair = c.pool;
  token = c.token;
  quote_token = c.quote_token;
  market_state = c.market_state;
  seismic_score = c.seismic_score;
  selection_reason = reason;
}

module _ (verify : Text → Text → Text → Bool) where
  unfoldable pub visit : SelectionReason → Candidate → Search → Search
  visit reason c s =
      if text_eq c.dex dex_v2
      then (if verify c.pool c.token c.quote_token
          then record s { asked = s.asked + 1; targets = s.targets ++ (target_of reason c ∷ []) }
          else record s { asked = s.asked + 1 })
      else s

  -- `_verified_native_targets`: it stops at the limit.
  unfoldable pub verified_native_targets : ℕ → SelectionReason → List Candidate → Search → Search
  unfolding visit
  verified_native_targets limit reason [] s = s
  verified_native_targets limit reason (c ∷ cs) s =
      let s' = visit reason c s in
      let rest = verified_native_targets limit reason cs s' in
      if leb limit (length s'.targets) then s' else rest

  -- `native_wss_targets`
  unfoldable pub native_wss_targets : ℕ → List UniverseRow → Search
  unfolding candidates verified_native_targets bootstrap_candidates
  native_wss_targets limit rows =
      let found = verified_native_targets limit hot_seismic (candidates limit rows) no_search in
      let bootstrap_limit = min limit bootstrap_native_wss_limit in
      if nat_eq (length found.targets) 0
      then verified_native_targets bootstrap_limit universe_bootstrap
          (bootstrap_candidates bootstrap_limit rows) found
      else found
