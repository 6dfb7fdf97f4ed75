-- ===== src/History.antt =====
-- The price histories, app/pipeline/runtime_price_history.py.
pub mod Store
pub mod Laws
pub mod Use
