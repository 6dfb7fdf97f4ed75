-- ===== src/Universe.antt =====
-- The observation of known pools: app/universe/scheduler.py over app/universe/registry.py.
pub mod Registry
pub mod Selection
pub mod Observing
pub mod Choosing
pub mod Resting
pub mod Recording
pub mod Answers
pub mod Runs
pub mod Priority
pub mod Routing
pub mod Targets
pub mod Searching
pub mod Schema
pub mod Ingest
pub mod Display
pub mod Ingesting
pub mod Tables
pub mod Checkpoints
