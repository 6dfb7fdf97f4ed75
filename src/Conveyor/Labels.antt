-- ===== src/Conveyor/Labels.antt =====
-- `ConveyorLabeler` of app/pipeline/conveyor.py over the analyzers' cache
-- (app/cache/analyzer_cache.py), with the TTLs of app/config/scanner.py. A read of the cache may
-- raise; the environment says at each read whether it does, and what the clock reads.
use coinoskobi_dexbot.Common.{
  ℕ, ◌+◌, ◌-◌, Bool, true, false, not, Option, none, some, List, [], ◌∷◌, ◌++◌, if◌then◌else◌,
  length, nat_eq,
}
use coinoskobi_dexbot.Common.Text.{Text, codes, lower, text_eq}
use coinoskobi_dexbot.Row.{Field, given, Row, Conveyor, truthy, nonempty}
use coinoskobi_dexbot.Queue.Identity.{normalize_token, chain_of, text_of}
use coinoskobi_dexbot.Cache.Table.{Cache, get}

-- One read: whether it raises, and the clock's reading.
pub record Reading : Type 0 where
  pub raises : Bool
  pub now : ℕ

-- The three reads of one row.
pub record Readings : Type 0 where
  pub token_read : Reading
  pub pair_read : Reading
  pub risk_read : Reading

-- `TOKEN_ANALYZER_CACHE_TTL_SECONDS` and its neighbours.
abbrev pub token_ttl : ℕ
token_ttl = 30

abbrev pub pair_ttl : ℕ
pair_ttl = 15

abbrev pub risk_ttl : ℕ
risk_ttl = 30

-- `_cache_key`
unfoldable pub cache_key : Row → Option Text
unfolding normalize_token chain_of lower
cache_key row =
    let token = normalize_token row.token in
    if truthy token then some (chain_of row.chain ++ (codes ":" ++ lower (text_of token))) else none

abbrev pub is_some {ℓ} : {A : Type ℓ} → Option A → Bool
is_some none = false
is_some (some a) = true

-- `_hit`: no key and a read that raises are both misses.
unfoldable pub hit : Reading → Text → Option Text → ℕ → Cache → Cache × Bool
unfolding get
hit reading namespace none ttl c = (c, false)
hit reading namespace (some key) ttl c =
    if not (nonempty key)
    then (c, false)
    else if reading.raises
    then (c, false)
    else (let (c', found) = get reading.now (namespace, key) ttl c in (c', is_some found))

-- `missing`
unfoldable pub missing_of : Bool → Bool → Bool → List Text
missing_of token_hit pair_hit risk_hit =
    (if token_hit then [] else codes "token" ∷ [])
    ++ ((if pair_hit then [] else codes "pair" ∷ [])
        ++ (if risk_hit then [] else codes "risk" ∷ []))

-- `CACHE_WARM`, `CACHE_COLD`, `CACHE_PARTIAL`, by the number of hits.
unfoldable pub state_of : ℕ → Text
state_of hit_count =
    if nat_eq hit_count 3
    then codes "WARM"
    else if nat_eq hit_count 0
    then codes "COLD"
    else codes "PARTIAL"

abbrev pub hit_or_miss : Bool → Text
hit_or_miss b = if b then codes "HIT" else codes "MISS"

-- The label, from the three reads.
unfoldable pub conveyor_of : Bool → Bool → Bool → Conveyor
unfolding missing_of state_of
conveyor_of token_hit pair_hit risk_hit =
    let lacks = missing_of token_hit pair_hit risk_hit in
    record {
      ingress_lane = given (codes "ACTIVE");
      cache_state = given (state_of (3 - length lacks));
      token_cache = given (hit_or_miss token_hit);
      pair_cache = given (hit_or_miss pair_hit);
      risk_cache = given (hit_or_miss risk_hit);
      missing_analyzers = lacks;
    }

-- `label`
unfoldable pub label : Readings → Row → Cache → Cache × Row
unfolding cache_key hit conveyor_of
label readings row c =
    let key = cache_key row in
    let (c₁, token_hit) = hit readings.token_read (codes "token") key token_ttl c in
    let (c₂, pair_hit) = hit readings.pair_read (codes "pair") key pair_ttl c₁ in
    let (c₃, risk_hit) = hit readings.risk_read (codes "risk") key risk_ttl c₂ in
    (c₃, record row { conveyor = given (conveyor_of token_hit pair_hit risk_hit) })

-- The statistics of `label_many`.
pub record LabelStats : Type 0 where
  pub input : ℕ
  pub warm_rows : ℕ
  pub partial_rows : ℕ
  pub cold_rows : ℕ

-- `item["conveyor"]["cache_state"]` of a labelled row.
abbrev pub state_text : Field Conveyor → Text
state_text (given l) = elim l.cache_state [ given s ↦ s | _ ↦ [] ]
state_text _ = []

abbrev pub count_state : Text → LabelStats → LabelStats
count_state state s =
    if text_eq state (codes "WARM")
    then record s { warm_rows = s.warm_rows + 1 }
    else if text_eq state (codes "PARTIAL")
    then record s { partial_rows = s.partial_rows + 1 }
    else record s { cold_rows = s.cold_rows + 1 }

-- The loop of `label_many`.
unfoldable pub label_rows :
    List (Readings × Row) → LabelStats → Cache → Cache × List Row × LabelStats
unfolding label
label_rows [] s c = (c, [], s)
label_rows ((readings, row) ∷ rows) s c =
    let (c₁, item) = label readings row c in
    let (c₂, items, s') = label_rows rows (count_state (state_text item.conveyor) s) c₁ in
    (c₂, item ∷ items, s')

-- `label_many`
unfoldable pub label_many : List (Readings × Row) → Cache → Cache × List Row × LabelStats
unfolding label_rows
label_many rows c =
    label_rows rows (record { input = length rows; warm_rows = 0; partial_rows = 0; cold_rows = 0 })
      c
