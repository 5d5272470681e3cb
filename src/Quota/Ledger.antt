-- ===== src/Quota/Ledger.antt =====
-- backend/quota/ledger.py: the monthly pool and the accountant that records spend into it.
-- A date is its ordinal, `date.toordinal()`. Token counts are natural numbers.
pub mod Allowance
pub mod Spending
use vectural.Prelude.{
  ℕ, ◌+◌, ◌-◌, ◌*◌, ◌/◌, Bool, true, false, Option, none, some, ◌&&◌, ◌||◌, not, List, [], ◌∷◌,
  ◌++◌, ltb, nat_beq, if◌then◌else◌,
}
use vectural.Prelude.Float.{Floats}
use vectural.Llm.Base.{UsageRecord, total_tokens}
use vectural.Domain.{TaskType, file_summary, module_summary, service_summary, flow_narrative}

-- membership in `_INDEXING_TASKS`
unfoldable pub is_indexing_task : TaskType → Bool
is_indexing_task file_summary = true
is_indexing_task module_summary = true
is_indexing_task service_summary = true
is_indexing_task flow_narrative = true
is_indexing_task _ = false

module _ (F : Floats) where
  open F use {Float, of_ℕ, trunc, sub, mul, le}

  pub record QuotaConfig : Type 0 where
    pub monthly_budget : ℕ
    pub serving_reserve_fraction : Float
    pub tranche_count : ℕ

  pub data ConfigError : Type 0 where
    bad_fraction not_positive : ConfigError

  -- `__post_init__`: the error that construction raises, if any
  unfoldable pub config_error : QuotaConfig → Option ConfigError
  config_error c =
      if not
        (le (of_ℕ 0) c.serving_reserve_fraction && not (le (of_ℕ 1) c.serving_reserve_fraction))
      then some bad_fraction
      else if nat_beq c.monthly_budget 0 || nat_beq c.tranche_count 0
      then some not_positive
      else none

  unfoldable pub indexing_budget : QuotaConfig → ℕ
  indexing_budget c = trunc (mul (of_ℕ c.monthly_budget) (sub (of_ℕ 1) c.serving_reserve_fraction))

  unfoldable pub serving_reserve : QuotaConfig → ℕ
  serving_reserve c = c.monthly_budget - indexing_budget c

  unfoldable pub weekly_tranche : QuotaConfig → ℕ
  weekly_tranche c = indexing_budget c / c.tranche_count

  pub record QuotaPool : Type 0 where
    pub config : QuotaConfig
    pub period_start : ℕ
    pub spent_indexing : ℕ
    pub spent_serving : ℕ

  unfoldable pub spent_total : QuotaPool → ℕ
  spent_total p = p.spent_indexing + p.spent_serving

  unfoldable pub remaining_total : QuotaPool → ℕ
  unfolding spent_total
  remaining_total p = p.config.monthly_budget - spent_total p

  -- days < 0 is `today` before the start of the period
  unfoldable pub week_index : QuotaPool → ℕ → ℕ
  week_index p today =
      if ltb today p.period_start
      then 0
      else let week = (today - p.period_start) / 7 in
        let last = p.config.tranche_count - 1 in if ltb last week then last else week

  unfoldable pub cumulative_indexing_allowance : QuotaPool → ℕ → ℕ
  cumulative_indexing_allowance p today = weekly_tranche p.config * (week_index p today + 1)

  unfoldable pub indexing_available : QuotaPool → ℕ → ℕ
  indexing_available p today = cumulative_indexing_allowance p today - p.spent_indexing

  unfoldable pub serving_available : QuotaPool → ℕ
  serving_available p = serving_reserve p.config - p.spent_serving

  unfoldable pub reset : ℕ → QuotaPool → QuotaPool
  reset new_period_start p = record p {
    period_start = new_period_start;
    spent_indexing = 0;
    spent_serving = 0;
  }

  pub record QuotaAccountant : Type 0 where
    pub pool : QuotaPool
    pub recorded : List UsageRecord

  -- `QuotaAccountant.record`
  unfoldable pub record_usage : UsageRecord → QuotaAccountant → QuotaAccountant
  unfolding is_indexing_task total_tokens
  record_usage u a =
      if is_indexing_task u.task_type
      then record {
        pool = record (a.pool) { spent_indexing = a.pool.spent_indexing + total_tokens u };
        recorded = a.recorded ++ u ∷ [];
      }
      else record {
        pool = record (a.pool) { spent_serving = a.pool.spent_serving + total_tokens u };
        recorded = a.recorded ++ u ∷ [];
      }
