-- ===== src/Quota/Governor.antt =====
-- backend/quota/governor.py: `QuotaGovernor`. The pool and the bucket are held side by side, and a
-- reason is a constructor with the numbers that its message names.
pub mod Budget
use vectural.Prelude.{ℕ, ◌-◌, Bool, true, false, Option, none, some, leb, ltb, if◌then◌else◌}
use vectural.Prelude.Float.{Floats}
use vectural.Quota.Ledger.{QuotaPool, serving_reserve, indexing_available, serving_available, reset}
use vectural.Quota.Bucket.{TokenBucket, per_day, try_consume, refill_full}

pub data Reason : Type 0 where
  within_tranche reserve_exhausted rate_limited within_reserve : Reason
  tranche_exhausted : ℕ → ℕ → Reason

pub record BudgetDecision : Type 0 where
  pub proceed : Bool
  pub reason : Reason
  pub available : ℕ

abbrev decide : Bool → Reason → ℕ → BudgetDecision
decide proceed reason available = record {
  proceed = proceed;
  reason = reason;
  available = available;
}

module _ (F : Floats) where
  open F use {Float, of_ℕ, div}

  pub record QuotaGovernor : Type 0 where
    pub pool : QuotaPool F
    pub bucket : TokenBucket F

  -- `__init__`: without a bucket, the reserve is spread over 30 days
  unfoldable pub new : QuotaPool F → Option (TokenBucket F) → QuotaGovernor
  new pool none = record {
    pool = pool;
    bucket = per_day F (div (of_ℕ (serving_reserve F pool.config)) (of_ℕ 30));
  }
  new pool (some bucket) = record { pool = pool; bucket = bucket }

  unfoldable pub request_indexing_budget : QuotaPool F → ℕ → ℕ → BudgetDecision
  request_indexing_budget pool cost today =
      let available = indexing_available F pool today in
      if leb cost available
      then decide true within_tranche available
      else decide false (tranche_exhausted cost available) available

  unfoldable pub check_serving : ℕ → Float → QuotaGovernor → BudgetDecision × QuotaGovernor
  check_serving cost now g =
      let available = serving_available F g.pool in
      if ltb available cost
      then (decide false reserve_exhausted available, g)
      else let (consumed, bucket) = try_consume F (of_ℕ cost) now g.bucket in
        if consumed
        then (decide true within_reserve available, record g { bucket = bucket })
        else (decide false rate_limited available, record g { bucket = bucket })

  unfoldable pub monthly_reset : ℕ → QuotaGovernor → QuotaGovernor
  monthly_reset new_period_start g = record {
    pool = reset F new_period_start g.pool;
    bucket = refill_full F g.bucket;
  }
