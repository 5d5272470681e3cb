-- ===== src/Quota/Ledger/Allowance.antt =====
-- The indexing allowance of backend/quota/ledger.py: it grows week by week, and never beyond the
-- budget that is not reserved for serving.
use vectural.Prelude.{
  ℕ, ◌+◌, ◌-◌, ◌*◌, ◌/◌, ◌≤◌, ◌<◌, ◌≡◌, ap, ◌∙◌, true, arith, ◌^◌, ltb, if◌then◌else◌,
}
use vectural.Prelude.Float.{Floats, Laws}
use vectural.Quota.Ledger.{
  QuotaConfig, QuotaPool, indexing_budget, serving_reserve, weekly_tranche, week_index,
  cumulative_indexing_allowance, indexing_available,
}

module _ (F : Floats) where
  week_index-lt :
      (p : QuotaPool F) (today : ℕ)
      → 0 < p.config.tranche_count
      → week_index F p today < p.config.tranche_count
  unfolding week_index
  week_index-lt p today h = ground arith

  week_index_mono : (p : QuotaPool F) (d e : ℕ) → d ≤ e → week_index F p d ≤ week_index F p e
  unfolding week_index
  week_index_mono p d e h = ground arith

  tranches-le :
      (p : QuotaPool F)
      → 0 < p.config.tranche_count
      → weekly_tranche F p.config * p.config.tranche_count ≤ indexing_budget F p.config
  unfolding weekly_tranche
  tranches-le p h = grind arith

  -- Whatever the day, in a period with at least one tranche, the allowance so far is at most the
  -- indexing budget of the whole month: no tranche after the last one is ever counted.
  pub allowance-le-budget :
      (p : QuotaPool F) (today : ℕ)
      → 0 < p.config.tranche_count
      → cumulative_indexing_allowance F p today ≤ indexing_budget F p.config
  unfolding cumulative_indexing_allowance
  allowance-le-budget p today h = grind (arith, week_index-lt p today h, tranches-le p h)

  week_of :
      (p : QuotaPool F) (week day : ℕ)
      → 0 < p.config.tranche_count
      → day < 7
      → week_index F p (p.period_start + (7 * week + day)) + 1
        ≡ (if ltb week p.config.tranche_count then week + 1 else p.config.tranche_count)
  unfolding week_index
  week_of p week day some_tranche short =
      let weeks : (p.period_start + (7 * week + day) - p.period_start) / 7 ≡ week = omega arith in
      ground (arith, weeks)

  -- On a later day the allowance, and what is available of it, is no smaller.
  pub available_mono :
      (p : QuotaPool F) (d e : ℕ)
      → d ≤ e
      → (cumulative_indexing_allowance F p d ≤ cumulative_indexing_allowance F p e)
        × (indexing_available F p d ≤ indexing_available F p e)
  unfolding cumulative_indexing_allowance indexing_available
  available_mono p d e h =
      let grows : weekly_tranche F p.config * (week_index F p d + 1)
          ≤ weekly_tranche F p.config * (week_index F p e + 1) =
        grind (arith, week_index_mono p d e h) in
      (grows, omega arith)

  first_week : (p : QuotaPool F) (before : ℕ) → week_index F p (p.period_start - before) ≡ 0
  unfolding week_index
  first_week p before = ground arith

  -- In a period with at least one tranche: up to its first day the allowance is one tranche; in each
  -- later week it is one tranche more, all of them with the last week's and no more after it; and what
  -- is available is the allowance less what was spent, whichever weeks it was unlocked in.
  pub allowance_rolls :
      (p : QuotaPool F) (before week day : ℕ)
      → 0 < p.config.tranche_count
      → day < 7
      → (cumulative_indexing_allowance F p (p.period_start - before) ≡ weekly_tranche F p.config)
        × (cumulative_indexing_allowance F p (p.period_start + (7 * week + day))
            ≡ weekly_tranche F p.config
              * (if ltb week p.config.tranche_count then week + 1 else p.config.tranche_count))
        × (indexing_available F p (p.period_start + (7 * week + day))
            ≡ weekly_tranche F p.config
                * (if ltb week p.config.tranche_count then week + 1 else p.config.tranche_count)
              - p.spent_indexing)
  unfolding cumulative_indexing_allowance indexing_available
  allowance_rolls p before week day some_tranche short =
      let tranche = weekly_tranche F p.config in
      let one = ap (λ n. tranche * (n + 1)) (first_week p before) in
      let later = ap (λ n. tranche * n) (week_of p week day some_tranche short) in
      (one ∙ omega arith, later, ap (λ n. n - p.spent_indexing) later)

module _ (F : Floats) (L : Laws F) where
  -- The two shares of a valid budget of at most 2 ^ 53 tokens add up to it.
  pub shares_add :
      (c : QuotaConfig F)
      → c.monthly_budget ≤ 2 ^ 53
      → F.le (F.of_ℕ 0) c.serving_reserve_fraction ≡ true
      → indexing_budget F c + serving_reserve F c ≡ c.monthly_budget
  unfolding indexing_budget serving_reserve
  shares_add c small valid = omega (
    arith,
    L.scale_le c.monthly_budget _ small (L.sub_le (F.of_ℕ 1) c.serving_reserve_fraction valid),
  )
