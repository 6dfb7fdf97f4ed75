-- ===== src/Conveyor.antt =====
-- The conveyor, app/pipeline/conveyor.py.
pub mod Labels
pub mod Laws
