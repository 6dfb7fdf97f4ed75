-- ===== src/Scheduler.antt =====
-- The work scheduler, app/pipeline/work_scheduler.py.
pub mod Lanes
pub mod Drain
pub mod Order
pub mod Feed
pub mod Serving
pub mod Pool
pub mod Accounts
pub mod Steps
pub mod Reports
pub mod Outcome
pub mod Ending
