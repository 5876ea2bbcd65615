-- ===== src/Pricing/GapFill/Candidates.antt =====
-- What `gap_fill_daily` and `gap_fill_session` do to a whole candidate.
use burnly.Prelude.{
  ◌≤◌, ◌≡◌, refl, ◌⊎◌, inl, inr, true, false, min, u64_max, arith, Bool-cases, ap, List,
}
use burnly.Domain.TokenUsage.{TokenUsage}
use burnly.Domain.Cost.{UsageCost}
use burnly.Collection.Candidate.{ModelUsageCandidate, DailyUsageCandidate, SessionUsageCandidate}
use burnly.Pricing.Float.{FloatOps}
use burnly.Pricing.Snapshot.{PricingSnapshot}
use burnly.Pricing.Calculator.{calculated}
use burnly.Pricing.Calculator.Outcomes.{IsZero}
use burnly.Pricing.GapFill.{
  aggregate_is_zero_with_tokens, fill_from, gap_fill_daily, gap_fill_session,
}
use burnly.Pricing.GapFill.Sums.{
  amount_of, sum_micros, AllFilled, fill_from-total, fill_from-unchanged, fill_from-positive,
  fill_from-AllFilled,
}

-- The aggregate was zero on a record with tokens, and is now the positive bounded sum of the
-- breakdowns, each of which was kept or filled; the rest of the candidate is as it was.
pub record DailyFilled (c d : DailyUsageCandidate) : Type 0 where
  pub was_zero : IsZero c.cost
  pub had_tokens : 1 ≤ c.tokens.total_tokens
  pub is_sum : d.cost ≡ calculated (min u64_max (sum_micros d.model_breakdowns))
  pub positive : 1 ≤ amount_of d.cost
  pub breakdowns : AllFilled c.model_breakdowns d.model_breakdowns
  pub same_rest : record d { cost = c.cost; model_breakdowns = c.model_breakdowns } ≡ c

pub record SessionFilled (c d : SessionUsageCandidate) : Type 0 where
  pub was_zero : IsZero c.cost
  pub had_tokens : 1 ≤ c.tokens.total_tokens
  pub is_sum : d.cost ≡ calculated (min u64_max (sum_micros d.model_breakdowns))
  pub positive : 1 ≤ amount_of d.cost
  pub breakdowns : AllFilled c.model_breakdowns d.model_breakdowns
  pub same_rest : record d { cost = c.cost; model_breakdowns = c.model_breakdowns } ≡ c

IsZero-with_tokens :
    (cost : UsageCost) (tokens : TokenUsage)
    → aggregate_is_zero_with_tokens cost tokens ≡ true
    → IsZero cost × (1 ≤ tokens.total_tokens)
unfolding aggregate_is_zero_with_tokens
IsZero-with_tokens cost tokens h = ground arith

positive_not_zero :
    (cost : UsageCost) (tokens : TokenUsage)
    → 1 ≤ amount_of cost
    → aggregate_is_zero_with_tokens cost tokens ≡ false
unfolding aggregate_is_zero_with_tokens
positive_not_zero cost tokens h = ground arith

module _ (ops : FloatOps) (snapshot : PricingSnapshot ops.F64) where
  total-eq-sum :
      (ms : List ModelUsageCandidate)
      → (fill_from ops snapshot 0 false ms).1
        ≡ min u64_max (sum_micros (fill_from ops snapshot 0 false ms).0)
  total-eq-sum ms = omega (arith, fill_from-total ops snapshot 0 false ms (omega arith))

  total_positive :
      (ms : List ModelUsageCandidate)
      → (fill_from ops snapshot 0 false ms).2 ≡ true
      → 1 ≤ (fill_from ops snapshot 0 false ms).1
  total_positive ms filled = elim (fill_from-positive ops snapshot 0 false ms filled) [
    | inl impossible ↦ cc
    | inr some_amount ↦ omega (arith, total-eq-sum ms)
  ]

  positive_daily_kept :
      (c : DailyUsageCandidate) → 1 ≤ amount_of c.cost → gap_fill_daily ops c snapshot ≡ c
  unfolding gap_fill_daily
  positive_daily_kept c h = rw (positive_not_zero c.cost c.tokens h)

  positive_session_kept :
      (c : SessionUsageCandidate) → 1 ≤ amount_of c.cost → gap_fill_session ops c snapshot ≡ c
  unfolding gap_fill_session
  positive_session_kept c h = rw (positive_not_zero c.cost c.tokens h)

  -- Gap filling leaves a daily candidate alone, or fills it: the new aggregate is the sum of the
  -- breakdowns, bounded by the largest `u64`.
  pub gap_fill_daily-cases :
      (c : DailyUsageCandidate)
      → (gap_fill_daily ops c snapshot ≡ c) ⊎ DailyFilled c (gap_fill_daily ops c snapshot)
  unfolding gap_fill_daily
  gap_fill_daily-cases c =
      let ms = c.model_breakdowns in
      elim (Bool-cases (aggregate_is_zero_with_tokens c.cost c.tokens)) [
        | inr other ↦ inl (rw other)
        | inl zero_cost ↦ elim (Bool-cases (fill_from ops snapshot 0 false ms).2) [
          | inr none_filled ↦ inl (
              rw (
                zero_cost,
                none_filled,
                (fill_from-unchanged ops snapshot 0 false ms none_filled).1,
              ))
          | inl filled ↦ inr (
              rw (zero_cost, filled)
                (record {
                  was_zero = (IsZero-with_tokens c.cost c.tokens zero_cost).0;
                  had_tokens = (IsZero-with_tokens c.cost c.tokens zero_cost).1;
                  is_sum = ap calculated (total-eq-sum ms);
                  positive = total_positive ms filled;
                  breakdowns = fill_from-AllFilled ops snapshot 0 false ms;
                  same_rest = refl;
                }))
        ]
      ]

  -- Gap filling leaves a session candidate alone, or fills it: the new aggregate is the sum of the
  -- breakdowns, bounded by the largest `u64`.
  pub gap_fill_session-cases :
      (c : SessionUsageCandidate)
      → (gap_fill_session ops c snapshot ≡ c) ⊎ SessionFilled c (gap_fill_session ops c snapshot)
  unfolding gap_fill_session
  gap_fill_session-cases c =
      let ms = c.model_breakdowns in
      elim (Bool-cases (aggregate_is_zero_with_tokens c.cost c.tokens)) [
        | inr other ↦ inl (rw other)
        | inl zero_cost ↦ elim (Bool-cases (fill_from ops snapshot 0 false ms).2) [
          | inr none_filled ↦ inl (
              rw (
                zero_cost,
                none_filled,
                (fill_from-unchanged ops snapshot 0 false ms none_filled).1,
              ))
          | inl filled ↦ inr (
              rw (zero_cost, filled)
                (record {
                  was_zero = (IsZero-with_tokens c.cost c.tokens zero_cost).0;
                  had_tokens = (IsZero-with_tokens c.cost c.tokens zero_cost).1;
                  is_sum = ap calculated (total-eq-sum ms);
                  positive = total_positive ms filled;
                  breakdowns = fill_from-AllFilled ops snapshot 0 false ms;
                  same_rest = refl;
                }))
        ]
      ]

  -- Filling a daily candidate a second time changes nothing.
  pub gap_fill_daily-idempotent :
      (c : DailyUsageCandidate)
      → gap_fill_daily ops (gap_fill_daily ops c snapshot) snapshot ≡ gap_fill_daily ops c snapshot
  gap_fill_daily-idempotent c = elim (gap_fill_daily-cases c) [
    | inl same ↦ ap (λ d. gap_fill_daily ops d snapshot) same
    | inr filled ↦ positive_daily_kept (gap_fill_daily ops c snapshot) filled.positive
  ]

  -- Filling a session candidate a second time changes nothing.
  pub gap_fill_session-idempotent :
      (c : SessionUsageCandidate)
      → gap_fill_session ops (gap_fill_session ops c snapshot) snapshot
        ≡ gap_fill_session ops c snapshot
  gap_fill_session-idempotent c = elim (gap_fill_session-cases c) [
    | inl same ↦ ap (λ d. gap_fill_session ops d snapshot) same
    | inr filled ↦ positive_session_kept (gap_fill_session ops c snapshot) filled.positive
  ]
