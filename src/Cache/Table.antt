-- ===== src/Cache/Table.antt =====
-- `AnalyzerCache` of app/cache/analyzer_cache.py: its SQLite table as a dict under the primary key
-- (namespace, cache_key), and its counters. Each method runs under the instance's lock, so a method
-- is one step. A time stamp is a reading of the clock in ticks.
use coinoskobi_dexbot.Common.{
  ℕ, ◌+◌, ◌-◌, Bool, true, ◌≡◌, ◌↔◌, Option, none, some, if◌then◌else◌, ltb, nat_eq, ◌&&◌, Eq,
  arith,
}
use mathlib.Core.Option
use coinoskobi_dexbot.Common.Dict.{Dict, lookup, insert, erase}
use coinoskobi_dexbot.Common.Text.{Text, text_eq, text_eq_iff}

abbrev pub CacheKey : Type 0
CacheKey = Text × Text

abbrev pub key_eq : CacheKey → CacheKey → Bool
key_eq k j = text_eq k.0 j.0 && text_eq k.1 j.1

pub key_eq_iff : (k j : CacheKey) → (key_eq k j ≡ true) ↔ (k ≡ j)
key_eq_iff (a, b) (c, d) = ground (arith, text_eq_iff a c, text_eq_iff b d)

instance abbrev pub key_Eq : Eq CacheKey
key_Eq = record { equal = key_eq; equal_iff = key_eq_iff }

-- A row of `analyzer_cache_v1`, and what `get_versioned` returns.
pub record Versioned : Type 0 where
  pub payload : Text
  pub updated_at : ℕ

pub record Cache : Type 0 where
  pub table : Dict CacheKey Versioned
  pub hits : ℕ
  pub misses : ℕ
  pub stale : ℕ
  pub writes : ℕ

-- `get_versioned` on the selected row. The age is 0 where the clock went back.
unfoldable pub read_row : ℕ → ℕ → Cache → Option Versioned → Cache × Option Versioned
read_row now ttl_seconds c none = (record c { misses = c.misses + 1 }, none)
read_row now ttl_seconds c (some row) =
    if ltb ttl_seconds (now - row.updated_at)
    then (record c { stale = c.stale + 1 }, none)
    else (record c { hits = c.hits + 1 }, some row)

-- `get_versioned`
unfoldable pub get_versioned : ℕ → CacheKey → ℕ → Cache → Cache × Option Versioned
unfolding read_row
get_versioned now k ttl_seconds c = read_row now ttl_seconds c (lookup k c.table)

-- `get`
unfoldable pub get : ℕ → CacheKey → ℕ → Cache → Cache × Option Text
unfolding get_versioned
get now k ttl_seconds c =
    let (c', found) = get_versioned now k ttl_seconds c in
    (c', Option.map (λ (row : Versioned). row.payload) found)

-- `set`: an insertion, or an update of payload and time stamp on a conflict.
unfoldable pub set : ℕ → CacheKey → Text → Cache → Cache
set now k payload c = record c {
  table = insert k (record { payload = payload; updated_at = now }) c.table;
  writes = c.writes + 1;
}

-- The row with another payload and its old time stamp.
abbrev pub repay : Text → Versioned → Versioned
repay payload row = record row { payload = payload }

-- `replace_payload_preserve_age`, with the number of rows that it changed.
unfoldable pub replace_payload_preserve_age : CacheKey → Text → Cache → Cache × ℕ
replace_payload_preserve_age k payload c = elim (lookup k c.table) [
  | none ↦ (c, 0)
  | some row ↦ (record c { table = insert k (repay payload row) c.table }, 1)
]

-- `replace_payload_if_version`
unfoldable pub replace_payload_if_version : CacheKey → Text → ℕ → Cache → Cache × ℕ
replace_payload_if_version k payload expected_updated_at c = elim (lookup k c.table) [
  | none ↦ (c, 0)
  | some row ↦
      if nat_eq row.updated_at expected_updated_at
      then (record c { table = insert k (repay payload row) c.table }, 1)
      else (c, 0)
]

-- `delete`
unfoldable pub delete : CacheKey → Cache → Cache
delete k c = record c { table = erase k c.table }
