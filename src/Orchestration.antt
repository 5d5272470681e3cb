-- ===== src/Orchestration.antt =====
-- backend/orchestration: the durable indexing workflow, one service at a time.
pub mod State
pub mod Workflow
