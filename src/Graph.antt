-- ===== src/Graph.antt =====
-- backend/graph: the knowledge graph.
pub mod Index
pub mod Detach
pub mod Store
pub mod Queries
