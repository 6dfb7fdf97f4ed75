-- ===== src/Mode.antt =====
-- The operating mode, app/pipeline/operating_mode.py.
pub mod Readmodel
pub mod Laws
