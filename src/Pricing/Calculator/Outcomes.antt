-- ===== src/Pricing/Calculator/Outcomes.antt =====
-- When `gap_fill_cost` prices a record.
use burnly.Prelude.{
  ℕ, ◌≤◌, ◌≡◌, ◌⊎◌, inl, inr, refl, not, ◌||◌, Option, none, some, ◌==◌, arith, Bool-cases,
  Option-cases,
}
use burnly.Prelude.Text.{Text}
use burnly.Domain.TokenUsage.{TokenUsage}
use burnly.Domain.Cost.{UsageCost, valued, not_applicable, unavailable}
use burnly.Pricing.Float.{FloatOps}
use burnly.Pricing.Snapshot.{PricingSnapshot, find}
use burnly.Pricing.Calculator.{calculated, price_tokens, gap_fill_cost}

-- A cost valued at zero micro-dollars.
abbrev pub IsZero : UsageCost → Type 0
IsZero (valued amount _ _ _) = amount ≡ 0
IsZero (not_applicable _) = ⊥
IsZero (unavailable _) = ⊥

module _ (ops : FloatOps) where
  open ops use {F64}

  -- `gap_fill_cost` keeps the cost, or replaces an amount of zero on a record with tokens by a
  -- positive price of the model.
  pub gap_fill_cost-cases :
      (model : Option Text) (tokens : TokenUsage) (snapshot : PricingSnapshot F64)
      (current : UsageCost)
      → (gap_fill_cost ops model tokens snapshot current ≡ current)
        ⊎ ((micros : ℕ) × (gap_fill_cost ops model tokens snapshot current ≡ calculated micros)
            × (1 ≤ micros)
            × (1 ≤ tokens.total_tokens)
            × IsZero current)
  unfolding gap_fill_cost
  gap_fill_cost-cases none tokens snapshot (valued amount currency kind status) = inl (ground arith)
  gap_fill_cost-cases (some model) tokens snapshot (valued amount currency kind status) =
      elim (Option-cases (find snapshot model)) [
        | inl unknown_model ↦ inl (ground arith)
        | inr (entry, found) ↦ elim (Option-cases (price_tokens ops tokens entry)) [
          | inl unpriced ↦ inl (ground arith)
          | inr (price, priced) ↦
              elim (Bool-cases (not (amount == 0) || tokens.total_tokens == 0 || price == 0)) [
                | inl keep ↦ inl (ground arith)
                | inr fill ↦ inr (price, ground arith, ground arith, ground arith, ground arith)
              ]
        ]
      ]
  gap_fill_cost-cases model tokens snapshot (not_applicable kind) = inl refl
  gap_fill_cost-cases model tokens snapshot (unavailable kind) = inl refl
