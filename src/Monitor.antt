-- ===== src/Monitor.antt =====
-- orchestrator_harness/monitor.py: status derivation, orphaned leases and their promotion, the
-- recoveries of reviews, and the outbox of a worker.
pub mod Status
pub mod Derivation
pub mod Orphans
pub mod StatusPromotion
pub mod Recovery
pub mod Requests
pub mod Recovered
pub mod Reviewed
pub mod Outbox
pub mod Signals
pub mod Consumed
mod Examples
mod Runs
