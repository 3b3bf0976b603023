-- ===== src/ManagerQueue.antt =====
-- orchestrator_harness/manager_queue.py: the manager queue.
pub mod Event
pub mod Operations
pub mod Runtime
pub mod Moves
pub mod Growth
pub mod Calls
pub mod History
pub mod Dedup
pub mod Once
pub mod Failures
pub mod Promotions
pub mod Closing
mod Examples
