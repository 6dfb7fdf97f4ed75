-- ===== src/Gate.antt =====
-- The risk gate, app/risk/gate.py.
pub mod Evaluate
pub mod Laws
