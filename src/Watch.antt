-- ===== src/Watch.antt =====
-- orchestrator_harness/scan_watch.py: the snapshot of a scan, and the loop of a watch.
pub mod Duration
pub mod Snapshot
pub mod Loop
pub mod Ending
mod Examples
