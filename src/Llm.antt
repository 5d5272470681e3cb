-- ===== src/Llm.antt =====
-- backend/llm and backend/failures.py: the single egress to a model.
pub mod Base
pub mod Failures
pub mod Catalog
pub mod Router
