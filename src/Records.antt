-- ===== src/Records.antt =====
-- orchestrator_harness/records.py: the JSONL logs and the replacement of a file. A lock makes each
-- operation on a record one step.
pub mod Log
pub mod Replace
pub mod Appending
pub mod Attempts
mod Examples
