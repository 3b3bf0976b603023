-- ===== src/Review.antt =====
-- The completion review: orchestrator_harness/review.py, with `content_hash` of
-- orchestrator_harness/core.py and the reading of lanes of orchestrator_harness/lanes.py. A value
-- that is an array or an object where the code looks a text up in a set is taken for no member; the
-- code raises there.
pub mod Chain
pub mod Equality
pub mod Source
pub mod Publication
pub mod Command
pub mod Final
pub mod Published
pub mod Transfer
pub mod Honoured
pub mod Recorded
pub mod Retry
mod Examples
pub mod Fixture
mod Runs
