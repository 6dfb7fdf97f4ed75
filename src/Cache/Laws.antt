-- ===== src/Cache/Laws.antt =====
-- What a read of app/cache/analyzer_cache.py finds after each of its writes.
use coinoskobi_dexbot.Common.{
  ℕ, suc, ◌+◌, ◌-◌, ◌≡◌, ◌≢◌, ◌⊎◌, inl, inr, none, some, if◌then◌else◌, ltb, nat_eq, nat_eq_iff,
  Bool-cases, Option-cases, arith,
}
use mathlib.Core.Option
use coinoskobi_dexbot.Common.Dict.{
  lookup, Unique, lookup-insert, lookup-insert_self, lookup-erase_self, lookup-erase_ne,
}
use coinoskobi_dexbot.Common.Text.{Text}
use coinoskobi_dexbot.Cache.Table.{
  CacheKey, key_Eq, key_eq, key_eq_iff, Versioned, Cache, get_versioned, get, set, repay,
  replace_payload_preserve_age, replace_payload_if_version, delete,
}

-- After `set`, a read of the key finds the payload as long as its age is within the TTL of the
-- read, and other keys read as before.
get-set :
    (now later ttl : ℕ) (k j : CacheKey) (payload : Text) (c : Cache)
    → (get later j ttl (set now k payload c)).1 ≡ (
        if key_eq j k
        then (if ltb ttl (later - now) then none else some payload)
        else (get later j ttl c).1)
unfolding get set
get-set now later ttl k j payload c =
    ground (arith, lookup-insert j k (record { payload = payload; updated_at = now }) c.table)

-- A read counts as exactly one of a hit, a miss or a stale entry, and returns a value on a hit only.
pub get_versioned_counts :
    (now ttl : ℕ) (k : CacheKey) (c : Cache)
    → let (c', found) = get_versioned now k ttl c in
      (c'.hits + c'.misses + c'.stale ≡ suc (c.hits + c.misses + c.stale))
      × (c'.table ≡ c.table)
      × ((found ≡ none) ⊎ (c'.hits ≡ c.hits + 1))
unfolding get_versioned
get_versioned_counts now ttl k c = ground arith

-- `replace_payload_preserve_age` changes the payload only: whether and when an entry counts as
-- stale stays as it was, for every key.
pub replace_keeps_age :
    (now ttl : ℕ) (k j : CacheKey) (payload : Text) (c : Cache)
    → (get_versioned now j ttl (replace_payload_preserve_age k payload c).0).1 ≡ (
        if key_eq j k
        then Option.map (repay payload) (get_versioned now j ttl c).1
        else (get_versioned now j ttl c).1)
unfolding get_versioned replace_payload_preserve_age
replace_keeps_age now ttl k j payload c = elim (Option-cases (lookup k c.table)) [
  | inl absent ↦ ground (arith, key_eq_iff j k)
  | inr (row, found) ↦ ground (arith, key_eq_iff j k, lookup-insert j k (repay payload row) c.table)
]

-- The compare-and-swap changes the entry exactly when its version is the expected one, and then
-- keeps the time stamp; the count says which.
pub replace_if_version_lem :
    (k : CacheKey) (payload : Text) (expected : ℕ) (c : Cache)
    → ((row : Versioned) × (lookup k c.table ≡ some row)
        × (row.updated_at ≡ expected)
        × ((replace_payload_if_version k payload expected c).1 ≡ 1)
        × (lookup k (replace_payload_if_version k payload expected c).0.table
            ≡ some (repay payload row)))
      ⊎ (((replace_payload_if_version k payload expected c).1 ≡ 0)
          × ((replace_payload_if_version k payload expected c).0 ≡ c)
          × (Option.map (λ (row : Versioned). row.updated_at) (lookup k c.table) ≢ some expected))
unfolding replace_payload_if_version
replace_if_version_lem k payload expected c = elim (Option-cases (lookup k c.table)) [
  | inl absent ↦ inr (ground arith, ground arith, λ e. ground arith)
  | inr (row, found) ↦ elim (Bool-cases (nat_eq row.updated_at expected)) [
    | inl same ↦ inl (
      row,
      found,
      (nat_eq_iff row.updated_at expected).0 same,
      ground arith,
      ground (arith, lookup-insert_self k (repay payload row) c.table),
    )
    | inr other ↦
        inr (ground arith, ground arith, λ e. ground (arith, nat_eq_iff row.updated_at expected))
  ]
]

-- A write between the read of a version and the swap wins, if it has another time stamp: the swap
-- changes nothing and reports no row.
newer_write_wins :
    (now expected : ℕ) (k : CacheKey) (fresh old : Text) (c : Cache)
    → now ≢ expected
    → replace_payload_if_version k old expected (set now k fresh c) ≡ (set now k fresh c, 0)
unfolding replace_payload_if_version set
newer_write_wins now expected k fresh old c n = ground (
  arith,
  lookup-insert_self k (record { payload = fresh; updated_at = now }) c.table,
  nat_eq_iff now expected,
)

-- In a table with distinct keys, a deleted entry is not found any more, and the others are found
-- as before.
pub get-delete :
    (now ttl : ℕ) (k j : CacheKey) (c : Cache)
    → Unique c.table
    → (get now j ttl (delete k c)).1 ≡ (if key_eq j k then none else (get now j ttl c).1)
unfolding get delete
get-delete now ttl k j c u = elim (Bool-cases (key_eq j k)) [
  | inl same ↦
      let e : j ≡ k = (key_eq_iff j k).0 same in ground (arith, lookup-erase_self k c.table u)
  | inr other ↦
      let n : j ≢ k = λ e. ground (arith, key_eq_iff j k) in
      ground (arith, lookup-erase_ne j k c.table n)
]
