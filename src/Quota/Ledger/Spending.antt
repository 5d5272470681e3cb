-- ===== src/Quota/Ledger/Spending.antt =====
-- What recording a spend does to the pool of backend/quota/ledger.py.
use vectural.Prelude.{◌+◌, ◌≡◌, arith, ◌++◌, ◌∷◌, [], if◌then◌else◌}
use vectural.Prelude.Float.{Floats}
use vectural.Llm.Base.{UsageRecord, total_tokens}
use vectural.Quota.Ledger.{QuotaAccountant, record_usage, spent_total, is_indexing_task}

module _ (F : Floats) where
  -- One recorded call adds its tokens to exactly one of the two counters, the one of its task's
  -- class, appends its record, and leaves the configuration and the period alone. So the total
  -- spent grows by its tokens.
  pub record_usage_lem :
      (u : UsageRecord) (a : QuotaAccountant F)
      → (spent_total F (record_usage F u a).pool ≡ spent_total F a.pool + total_tokens u)
        × ((record_usage F u a).pool.spent_indexing
            ≡ a.pool.spent_indexing + (if is_indexing_task u.task_type then total_tokens u else 0))
        × ((record_usage F u a).pool.spent_serving
            ≡ a.pool.spent_serving + (if is_indexing_task u.task_type then 0 else total_tokens u))
        × ((record_usage F u a).pool.config ≡ a.pool.config)
        × ((record_usage F u a).pool.period_start ≡ a.pool.period_start)
        × ((record_usage F u a).recorded ≡ a.recorded ++ u ∷ [])
  unfolding record_usage spent_total
  record_usage_lem u a = ground arith
