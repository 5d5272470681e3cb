-- ===== src/Summarise.antt =====
-- backend/summarise and the stores it fills: tier-1 summaries, file by file.
pub mod Ledger
pub mod Driver
