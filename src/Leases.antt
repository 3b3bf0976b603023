-- ===== src/Leases.antt =====
-- orchestrator_harness/leases.py: exclusive-resource leases.
pub mod Store
pub mod Acquisition
pub mod Release
pub mod Recovery
pub mod Safety
pub mod Audit
mod Examples
