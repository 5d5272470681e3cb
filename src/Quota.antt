-- ===== src/Quota.antt =====
-- backend/quota: the shared token pool, its accountant, the governor and the week planner.
pub mod Ledger
pub mod Bucket
pub mod Governor
pub mod BinPack
