-- ===== src/Exit.antt =====
-- The hybrid exit controller, app/risk/hybrid_exit_controller.py.
pub mod Controller
pub mod Laws
