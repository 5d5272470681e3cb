-- ===== src/Quota/Governor/Budget.antt =====
-- What the governor's approvals guarantee of the pool that the accountant writes.
use vectural.Prelude.{ℕ, ◌+◌, ◌≤◌, ◌<◌, ◌≡◌, ◌↔◌, true, false, arith, ◌^◌, Bool-cases, inl, inr}
use vectural.Prelude.Float.{Floats, Laws}
use vectural.Llm.Base.{UsageRecord, total_tokens}
use vectural.Quota.Ledger.{
  QuotaPool, QuotaAccountant, record_usage, is_indexing_task, reset, cumulative_indexing_allowance,
  indexing_available, serving_reserve, indexing_budget, week_index,
}
use vectural.Quota.Ledger.Allowance.{allowance-le-budget, available_mono, shares_add}
use vectural.Quota.Ledger.Spending.{record_usage_lem}
use vectural.Quota.Governor.{request_indexing_budget}

module _ (F : Floats) where
  -- A cost above zero is approved exactly when, with it, the indexing spend stays within the
  -- allowance of the tranches so far.
  pub request_iff :
      (p : QuotaPool F) (cost today : ℕ)
      → 0 < cost
      → ((request_indexing_budget F p cost today).proceed ≡ true)
        ↔ (p.spent_indexing + cost ≤ cumulative_indexing_allowance F p today)
  unfolding request_indexing_budget indexing_available
  request_iff p cost today h = ground arith

  -- One event in the life of the pool: a day passes, an approved indexing call is recorded with at
  -- most the tokens that were approved, a serving call is recorded, or a new month begins.
  pub data Step : ℕ × QuotaAccountant F → ℕ × QuotaAccountant F → Type 0 where
    next_day : (d : ℕ) (a : QuotaAccountant F) → Step (d, a) (d + 1, a)
    index :
        (d cost : ℕ) (u : UsageRecord) (a : QuotaAccountant F)
        → (request_indexing_budget F a.pool cost d).proceed ≡ true
        → is_indexing_task u.task_type ≡ true
        → 0 < cost
        → total_tokens u ≤ cost
        → Step (d, a) (d, record_usage F u a)
    serve :
        (d : ℕ) (u : UsageRecord) (a : QuotaAccountant F)
        → is_indexing_task u.task_type ≡ false
        → Step (d, a) (d, record_usage F u a)
    new_month :
        (d : ℕ) (a : QuotaAccountant F) → Step (d, a) (d, record a { pool = reset F d a.pool })

  pub data Reach (s : ℕ × QuotaAccountant F) : ℕ × QuotaAccountant F → Type 0 where
    here : Reach s s
    next : {t u : ℕ × QuotaAccountant F} → Reach s t → Step t u → Reach s u

  -- There is a tranche, and the indexing spend is within what is unlocked by the day.
  pub record IsFunded (s : ℕ × QuotaAccountant F) : Type 0 where
    pub tranched : 0 < s.1.pool.config.tranche_count
    pub funded : s.1.pool.spent_indexing ≤ cumulative_indexing_allowance F s.1.pool s.0

  allowance-record_usage :
      (u : UsageRecord) (a : QuotaAccountant F) (d : ℕ)
      → cumulative_indexing_allowance F (record_usage F u a).pool d
        ≡ cumulative_indexing_allowance F a.pool d
  unfolding record_usage cumulative_indexing_allowance week_index
  allowance-record_usage u a d = elim (Bool-cases (is_indexing_task u.task_type)) [
    | inl e ↦ rw e
    | inr e ↦ rw e
  ]

  Step-IsFunded : {s t : ℕ × QuotaAccountant F} → Step s t → IsFunded s → IsFunded t
  Step-IsFunded (next_day d a) h = record {
    tranched = h.tranched;
    funded = omega (arith, h.funded, (available_mono F a.pool d (d + 1) (omega arith)).0);
  }
  Step-IsFunded (index d cost u a ok e pos le) h =
      let fits = (request_iff a.pool cost d pos).0 ok in
      let spent = record_usage_lem F u a in
      record {
        tranched = rw (spent.3) h.tranched;
        funded = rw (allowance-record_usage u a d, spent.1, e) (omega (arith, le, fits));
      }
  Step-IsFunded (serve d u a e) h =
      let spent = record_usage_lem F u a in
      record {
        tranched = rw (spent.3) h.tranched;
        funded = rw (allowance-record_usage u a d, spent.1, e) (omega (arith, h.funded));
      }
  Step-IsFunded (new_month d a) h = record { tranched = reset-tranched; funded = reset-funded }
    where
      reset-tranched : 0 < (reset F d a.pool).config.tranche_count
      reset-tranched = unfold reset in h.tranched

      reset-funded :
          (reset F d a.pool).spent_indexing ≤ cumulative_indexing_allowance F (reset F d a.pool) d
      reset-funded = unfold reset in omega arith

  Reach-IsFunded : {s t : ℕ × QuotaAccountant F} → IsFunded s → Reach s t → IsFunded t
  Reach-IsFunded h here = h
  Reach-IsFunded h (next r st) = Step-IsFunded st (Reach-IsFunded h r)

  -- From a funded state, however days, approved indexing calls, serving calls and new months
  -- follow one another, the indexing spend is never above the month's indexing budget.
  pub indexing-le-budget :
      (s t : ℕ × QuotaAccountant F)
      → IsFunded s
      → Reach s t
      → t.1.pool.spent_indexing ≤ indexing_budget F t.1.pool.config
  indexing-le-budget s t h r =
      let after = Reach-IsFunded h r in
      omega (arith, after.funded, allowance-le-budget F t.1.pool t.0 after.tranched)

module _ (F : Floats) (L : Laws F) where
  -- From a funded state, with a valid configuration of at most 2 ^ 53 tokens, however the events
  -- follow one another, the indexing spend leaves the whole serving reserve of the month untouched.
  pub reserve_ringfenced :
      (s t : ℕ × QuotaAccountant F)
      → IsFunded F s
      → Reach F s t
      → t.1.pool.config.monthly_budget ≤ 2 ^ 53
      → F.le (F.of_ℕ 0) t.1.pool.config.serving_reserve_fraction ≡ true
      → t.1.pool.spent_indexing + serving_reserve F t.1.pool.config ≤ t.1.pool.config.monthly_budget
  reserve_ringfenced s t h r small valid =
      omega (arith, indexing-le-budget F s t h r, shares_add F L t.1.pool.config small valid)
