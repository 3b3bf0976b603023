-- ===== src/BoundedPolicy.antt =====
-- orchestrator_harness/codex_bounded_policy.py: which commands a worker may run outside the bounded
-- supervisor. A text is the list of its code points here.
pub mod Codes
pub mod Segments
pub mod Splitting
pub mod Launchers
pub mod Covered
pub mod Guard
pub mod FailClosed
mod Examples
