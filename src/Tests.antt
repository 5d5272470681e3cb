-- ===== src/Tests.antt =====
-- Runs of the model on concrete inputs.
pub mod Tenths
pub mod QuotaRuns
pub mod PackingRuns
pub mod ModelCalls
pub mod Workflows
pub mod Chunks
pub mod FlowRuns
pub mod Summaries
pub mod Answers
pub mod Graphs
pub mod Asking
pub mod Diffs
pub mod Searches
