-- ===== src/Pricing/GapFill.antt =====
-- Gap filling of whole candidates, in src-tauri/src/application/cost/calculator.rs.
pub mod Sums
pub mod Candidates
use burnly.Prelude.{
  ℕ, Bool, true, false, not, ◌&&◌, ◌||◌, Option, none, some, List, [], ◌∷◌, ltb, ◌==◌,
  if◌then◌else◌, saturating_add,
}
use burnly.Domain.TokenUsage.{TokenUsage}
use burnly.Domain.Cost.{UsageCost, valued, not_applicable, unavailable}
use burnly.Collection.Candidate.{ModelUsageCandidate, DailyUsageCandidate, SessionUsageCandidate}
use burnly.Pricing.Float.{FloatOps}
use burnly.Pricing.Snapshot.{PricingSnapshot}
use burnly.Pricing.Calculator.{calculated, gap_fill_cost}

-- `matches!(cost, UsageCost::Valued { amount_micros, .. } if amount_micros > 0)`
abbrev pub is_positive : UsageCost → Bool
is_positive (valued amount _ _ _) = ltb 0 amount
is_positive (not_applicable _) = false
is_positive (unavailable _) = false

-- `total_micros.saturating_add(amount_micros)`, for a valued cost.
abbrev pub add_amount : ℕ → UsageCost → ℕ
add_amount total (valued amount _ _ _) = saturating_add total amount
add_amount total (not_applicable _) = total
add_amount total (unavailable _) = total

unfoldable pub aggregate_is_zero_with_tokens : UsageCost → TokenUsage → Bool
aggregate_is_zero_with_tokens (valued amount _ _ _) tokens =
    not (tokens.total_tokens == 0) && amount == 0
aggregate_is_zero_with_tokens (not_applicable _) tokens = false
aggregate_is_zero_with_tokens (unavailable _) tokens = false

-- `if let Some(aggregate) = ... { candidate.cost = aggregate; }`
abbrev pub unwrap_cost : Option UsageCost → UsageCost → UsageCost
unwrap_cost none cost = cost
unwrap_cost (some aggregate) cost = aggregate

module _ (ops : FloatOps) where
  open ops use {F64}

  -- The loop of `gap_fill_model_breakdowns`, over `total_micros` and `any_filled`.
  pub fill_from :
      PricingSnapshot F64
      → ℕ
      → Bool
      → List ModelUsageCandidate
      → List ModelUsageCandidate × ℕ × Bool
  fill_from snapshot total any [] = ([], total, any)
  fill_from snapshot total any (model ∷ models) =
      let filled = gap_fill_cost ops (some model.raw_model_id) model.tokens snapshot model.cost in
      let became_valued = is_positive filled && not (is_positive model.cost) in
      let (rest, total', any') =
        fill_from snapshot (add_amount total filled) (any || became_valued) models in
      (record model { cost = filled } ∷ rest, total', any')

  pub gap_fill_model_breakdowns :
      List ModelUsageCandidate → PricingSnapshot F64 → List ModelUsageCandidate × Option UsageCost
  unfolding fill_from
  gap_fill_model_breakdowns models snapshot =
      let (filled, total, any) = fill_from snapshot 0 false models in
      (filled, if any then some (calculated total) else none)

  unfoldable pub gap_fill_daily : DailyUsageCandidate → PricingSnapshot F64 → DailyUsageCandidate
  unfolding gap_fill_model_breakdowns
  gap_fill_daily candidate snapshot =
      let (models, aggregate) = gap_fill_model_breakdowns candidate.model_breakdowns snapshot in
      if aggregate_is_zero_with_tokens candidate.cost candidate.tokens
      then record candidate {
        model_breakdowns = models;
        cost = unwrap_cost aggregate candidate.cost;
      }
      else candidate

  unfoldable pub gap_fill_session :
      SessionUsageCandidate → PricingSnapshot F64 → SessionUsageCandidate
  unfolding gap_fill_model_breakdowns
  gap_fill_session candidate snapshot =
      let (models, aggregate) = gap_fill_model_breakdowns candidate.model_breakdowns snapshot in
      if aggregate_is_zero_with_tokens candidate.cost candidate.tokens
      then record candidate {
        model_breakdowns = models;
        cost = unwrap_cost aggregate candidate.cost;
      }
      else candidate
