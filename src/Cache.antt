-- ===== src/Cache.antt =====
-- The analyzers' cache, app/cache/analyzer_cache.py.
pub mod Table
pub mod Laws
