-- ===== src/Answer.antt =====
-- backend/answer: questions answered from the index.
pub mod Models
pub mod Cache
pub mod Plan
pub mod Complexity
pub mod Analytics
pub mod Service
