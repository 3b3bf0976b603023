-- ===== src/TaskCards.antt =====
-- orchestrator_harness/task_cards.py: which records are complete task cards.
pub mod Contract
mod Examples
