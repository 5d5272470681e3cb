-- ===== src/Flows.antt =====
-- backend/flows: cross-service flow narratives, their generation and their review.
pub mod Models
pub mod Identify
pub mod Generate
pub mod Service
