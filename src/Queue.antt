-- ===== src/Queue.antt =====
-- The bounded admission queue, app/pipeline/candidate_queue.py.
pub mod Identity
pub mod Heap
pub mod Defs
pub mod Methods
pub mod Backing
pub mod Updates
pub mod Cooldown
pub mod Eviction
pub mod Invariant
pub mod Maintenance
pub mod Front
pub mod Storing
pub mod Admission
pub mod Popping
pub mod Reach
pub mod Candidate
pub mod Effects
pub mod Cooling
