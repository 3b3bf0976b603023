-- ===== src/Config.antt =====
-- orchestrator_harness/config.py: the resource manifest and the two forms of the configuration.
pub mod Manifest
pub mod Contract
pub mod Legacy
pub mod Bounds
mod Examples
