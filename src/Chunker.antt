-- ===== src/Chunker.antt =====
-- backend/ingestion/chunker.py: from a file to its chunks.
pub mod Rows
pub mod Tree
pub mod Emit
pub mod Emission
