-- ===== src/Broker/Responses.antt =====
-- `_response_failure`, `_cache_get` and `_cache_put` of app/dex/provider_broker.py. A cache entry
-- that is used moves to the end.
use coinoskobi_dexbot.Common.{
  ℕ, ◌+◌, ◌-◌, Bool, true, false, Option, none, some, [], ◌∷◌, ◌++◌, if◌then◌else◌, ltb, leb,
  length, drop, not, ◌||◌,
}
use coinoskobi_dexbot.Common.Dict.{Dict, lookup, erase}
use coinoskobi_dexbot.Provider.Resilience.{Failure, classify_provider_failure}
use coinoskobi_dexbot.Cache.Table.{CacheKey, key_Eq}
use coinoskobi_dexbot.Broker.State.{
  Response, reply, not_a_dict, Broker, is_provider_failure, max_cache_entries,
}

-- `failure if failure in PROVIDER_FAILURES else None`
abbrev pub provider_failure : Failure → Option Failure
provider_failure f = if is_provider_failure f then some f else none

-- `_response_failure`
unfoldable pub response_failure : Response → Option Failure
unfolding classify_provider_failure
response_failure (reply none result) = none
response_failure (reply (some error) result) = provider_failure (classify_provider_failure error)
response_failure (not_a_dict payload) = none

-- What is cached: a dict without an error and with a result.
abbrev pub cacheable : Response → Bool
cacheable (reply none (some result)) = true
cacheable _ = false

-- `_cache_get` on the item that was found.
unfoldable pub cached_item :
    CacheKey → ℕ → Broker → Option (ℕ × Response) → Broker × Option Response
cached_item key now b none = (b, none)
cached_item key now b (some (expires_at, response)) =
    if leb expires_at now then (record b { cache = erase key b.cache }, none) else (
      record b {
        cache = erase key b.cache ++ (key, (expires_at, response)) ∷ [];
        cache_hit_count = b.cache_hit_count + 1;
      },
      some response,
    )

unfoldable pub cache_get : CacheKey → ℕ → Broker → Broker × Option Response
unfolding cached_item
cache_get key now b = cached_item key now b (lookup key b.cache)

-- The loop at the end of `_cache_put`: the oldest go until the bound holds.
abbrev pub trimmed : Dict CacheKey (ℕ × Response) → Dict CacheKey (ℕ × Response)
trimmed cache = drop (length cache - max_cache_entries) cache

-- `_cache_put`
unfoldable pub cache_put : CacheKey → Response → ℕ → ℕ → Broker → Broker
cache_put key response ttl now b =
    if not (ltb 0 ttl) || not (cacheable response)
    then b
    else record b { cache = trimmed (erase key b.cache ++ (key, (now + ttl, response)) ∷ []) }
