-- ===== src/LaneInbox.antt =====
-- The inbox of one worker: orchestrator_harness/manager_queue.py writes assignments into it, and
-- super-cache/workspace/.agent-workspace/lane-queue.py advances them.
pub mod Inbox
pub mod Advancing
pub mod Growth
pub mod Finishing
mod Examples
