-- ===== src/Watcher.antt =====
-- The alerts of the optional watcher: harness_watcher_implementation/state.py.
pub mod Alerts
pub mod Calls
pub mod Updates
pub mod Invariant
pub mod Recurrence
mod Examples
