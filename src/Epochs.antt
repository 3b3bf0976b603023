-- ===== src/Epochs.antt =====
-- orchestrator_harness/epochs.py: opening, reusing and closing the one active epoch.
pub mod Store
pub mod Opening
pub mod Interrupted
mod Examples
