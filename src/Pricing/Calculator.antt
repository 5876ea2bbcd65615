-- ===== src/Pricing/Calculator.antt =====
-- `calculate_cost`, `gap_fill_cost` and `price_tokens` of
-- src-tauri/src/application/cost/calculator.rs.
pub mod Outcomes
use burnly.Prelude.{ℕ, Bool, not, ◌||◌, Option, none, some, ltb, ◌==◌, if◌then◌else◌, u64_max}
use burnly.Prelude.Text.{Text, text}
use burnly.Domain.TokenUsage.{TokenUsage}
use burnly.Domain.Cost.{
  CurrencyCode, UsageCost, valued, not_applicable, unavailable, burnly_calculated, estimated,
}
use burnly.Pricing.Float.{FloatOps}
use burnly.Pricing.Snapshot.{PricingEntry, PricingSnapshot, find}

abbrev pub unwrap_or {ℓ} : {A : Type ℓ} → Option A → A → A
unwrap_or none d = d
unwrap_or (some a) d = a

-- `CurrencyCode::new("USD").expect(...)`
abbrev pub usd : CurrencyCode
usd = record { value = text "USD" }

-- A cost that Burnly calculated.
abbrev pub calculated : ℕ → UsageCost
calculated micros = valued micros usd burnly_calculated estimated

-- The end of `calculate_cost`, from the price on.
abbrev pub cost_of_price : Option ℕ → UsageCost
cost_of_price none = unavailable burnly_calculated
cost_of_price (some micros) =
    if micros == 0 then not_applicable burnly_calculated else calculated micros

-- The end of `gap_fill_cost`: `current` is kept unless the price is positive.
abbrev pub fill_price : Option ℕ → UsageCost → UsageCost
fill_price none current = current
fill_price (some micros) current = if micros == 0 then current else calculated micros

module _ (ops : FloatOps) where
  open ops use {
    F64, zero_f, half_f, million_f, of_u64, as_u64, add_f, mul_f, floor, is_finite, lt_f,
  }

  -- `micros > u64::MAX as f64` is `lt_f` the other way round.
  pub usd_to_micros : F64 → Option ℕ
  usd_to_micros amount =
      if not (is_finite amount) || lt_f amount zero_f
      then none
      else let micros = floor (add_f (mul_f amount million_f) half_f) in
        if lt_f (of_u64 u64_max) micros then none else some (as_u64 micros)

  pub price_tokens : TokenUsage → PricingEntry F64 → Option ℕ
  unfolding usd_to_micros
  price_tokens tokens entry =
      let input = mul_f (of_u64 (unwrap_or tokens.input_tokens 0)) entry.input in
      let output = mul_f (of_u64 (unwrap_or tokens.output_tokens 0)) entry.output in
      let cache_read =
        mul_f (of_u64 (unwrap_or tokens.cache_read_tokens 0)) (unwrap_or entry.cache_read zero_f) in
      let cache_write =
        mul_f (of_u64 (unwrap_or tokens.cache_creation_tokens 0))
          (unwrap_or entry.cache_write entry.input) in
      usd_to_micros (add_f (add_f (add_f input output) cache_read) cache_write)

  abbrev pub cost_of_entry : TokenUsage → Option (PricingEntry F64) → UsageCost
  cost_of_entry tokens none = unavailable burnly_calculated
  cost_of_entry tokens (some entry) = cost_of_price (price_tokens tokens entry)

  unfoldable pub calculate_cost : Text → TokenUsage → PricingSnapshot F64 → UsageCost
  calculate_cost model tokens snapshot =
      if tokens.total_tokens == 0
      then not_applicable burnly_calculated
      else cost_of_entry tokens (find snapshot model)

  abbrev pub fill_entry : TokenUsage → Option (PricingEntry F64) → UsageCost → UsageCost
  fill_entry tokens none current = current
  fill_entry tokens (some entry) current = fill_price (price_tokens tokens entry) current

  abbrev pub fill_model : Option Text → TokenUsage → PricingSnapshot F64 → UsageCost → UsageCost
  fill_model none tokens snapshot current = current
  fill_model (some model) tokens snapshot current = fill_entry tokens (find snapshot model) current

  unfoldable pub gap_fill_cost :
      Option Text → TokenUsage → PricingSnapshot F64 → UsageCost → UsageCost
  gap_fill_cost model tokens snapshot (valued amount currency kind status) =
      let current = valued amount currency kind status in
      if not (amount == 0) || tokens.total_tokens == 0
      then current
      else fill_model model tokens snapshot current
  gap_fill_cost model tokens snapshot (not_applicable kind) = not_applicable kind
  gap_fill_cost model tokens snapshot (unavailable kind) = unavailable kind
