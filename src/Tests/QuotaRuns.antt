-- ===== src/Tests/QuotaRuns.antt =====
-- Runs of the quota model on a month of 1,000 tokens.
use vectural.Prelude.{
  ℕ, ◌+◌, ◌-◌, ◌*◌, ltb, if◌then◌else◌, ◌≡◌, ◌≤◌, ◌↔◌, ◌^◌, refl, true, none, [], ◌∷◌, arith, leb,
}
use vectural.Domain.{file_summary}
use vectural.Llm.Base.{sonnet, UsageRecord, total_tokens}
use vectural.Quota.Ledger.{
  QuotaConfig, QuotaPool, QuotaAccountant, is_indexing_task, indexing_budget, serving_reserve,
  weekly_tranche, week_index, cumulative_indexing_allowance, indexing_available, record_usage,
}
use vectural.Quota.Ledger.Allowance.{allowance_rolls}
use vectural.Quota.Bucket.{TokenBucket}
use vectural.Quota.Bucket.Bounds.{IsBounded, consume_all, consume_all-IsBounded}
use vectural.Quota.Governor.{request_indexing_budget}
use vectural.Quota.Governor.Budget.{
  Step, index, here, next, IsFunded, request_iff, reserve_ringfenced,
}
use vectural.Tests.Tenths.{tenths, tenths-Laws}

abbrev pub month : QuotaConfig tenths
month = record { monthly_budget = 1000; serving_reserve_fraction = 3; tranche_count = 4 }

abbrev pub pool : QuotaPool tenths
pool = record { config = month; period_start = 100; spent_indexing = 0; spent_serving = 0 }

abbrev pub accountant : QuotaAccountant tenths
accountant = record { pool = pool; recorded = [] }

abbrev usage : UsageRecord
usage = record {
  task_type = file_summary;
  persona = none;
  model = sonnet;
  model_id = "sonnet";
  prompt_version = "file-v1";
  input_tokens = 100;
  output_tokens = 20;
  at = 0;
}

weekly : cumulative_indexing_allowance tenths pool 108 ≡ 350
unfolding cumulative_indexing_allowance week_index weekly_tranche indexing_budget
weekly = refl

funded : IsFunded tenths (100, accountant)
funded = record { tranched = omega arith; funded = omega arith }

abbrev spent_state : ℕ × QuotaAccountant tenths
spent_state = (100, record_usage tenths usage accountant)

approved : (request_indexing_budget tenths pool 150 100).proceed ≡ true
unfolding request_indexing_budget indexing_available cumulative_indexing_allowance week_index
    weekly_tranche indexing_budget
approved = refl

small_enough : total_tokens usage ≤ 150
unfolding total_tokens
small_enough = omega arith

is_indexing : is_indexing_task file_summary ≡ true
unfolding is_indexing_task
is_indexing = refl

spent-Step : Step tenths (100, accountant) spent_state
spent-Step = index 100 150 usage accountant approved is_indexing (omega arith) small_enough

small_month : (record_usage tenths usage accountant).pool.config.monthly_budget ≤ 2 ^ 53
unfolding record_usage is_indexing_task
small_month = omega arith

valid_share :
    leb 0 (record_usage tenths usage accountant).pool.config.serving_reserve_fraction ≡ true
unfolding record_usage is_indexing_task
valid_share = refl

reserve_ringfenced_example :
    (record_usage tenths usage accountant).pool.spent_indexing
      + serving_reserve tenths (record_usage tenths usage accountant).pool.config
    ≤ (record_usage tenths usage accountant).pool.config.monthly_budget
reserve_ringfenced_example =
    reserve_ringfenced tenths tenths-Laws (100, accountant) spent_state funded
      (next here spent-Step) small_month valid_share

request_iff_example :
    ((request_indexing_budget tenths pool 150 108).proceed ≡ true)
    ↔ (0 + 150 ≤ cumulative_indexing_allowance tenths pool 108)
request_iff_example = request_iff tenths pool 150 108 (omega arith)

allowance_rolls_example :
    (cumulative_indexing_allowance tenths pool (pool.period_start - 2)
      ≡ weekly_tranche tenths pool.config)
    × (cumulative_indexing_allowance tenths pool (pool.period_start + (7 * 1 + 3))
        ≡ weekly_tranche tenths pool.config
          * (if ltb 1 pool.config.tranche_count then 2 else pool.config.tranche_count))
    × (indexing_available tenths pool (pool.period_start + (7 * 1 + 3))
        ≡ weekly_tranche tenths pool.config
            * (if ltb 1 pool.config.tranche_count then 2 else pool.config.tranche_count)
          - pool.spent_indexing)
allowance_rolls_example = allowance_rolls tenths pool 2 1 3 (omega arith) (omega arith)

abbrev bucket : TokenBucket tenths
bucket = record { capacity = 100; rate = 10; tokens = 100; last = none }

consume_all-IsBounded_example :
    IsBounded tenths (consume_all tenths ((50, 0) ∷ (80, 20) ∷ []) bucket).1
consume_all-IsBounded_example =
    consume_all-IsBounded tenths tenths-Laws ((50, 0) ∷ (80, 20) ∷ []) bucket (refl, (refl, tt))
      refl
