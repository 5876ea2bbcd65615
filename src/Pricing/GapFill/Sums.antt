-- ===== src/Pricing/GapFill/Sums.antt =====
-- The loop of `gap_fill_model_breakdowns` against the sum of the breakdowns.
use burnly.Prelude.{
  ℕ, ◌+◌, ◌≤◌, ◌≡◌, refl, ◌⊎◌, inl, inr, Bool, true, false, not, ◌&&◌, ◌||◌, some, List, [], ◌∷◌,
  u64_max, saturating_add, min, arith,
}
use burnly.Domain.Cost.{UsageCost, valued, not_applicable, unavailable}
use burnly.Collection.Candidate.{ModelUsageCandidate}
use burnly.Pricing.Float.{FloatOps}
use burnly.Pricing.Snapshot.{PricingSnapshot}
use burnly.Pricing.Calculator.{calculated, gap_fill_cost}
use burnly.Pricing.Calculator.Outcomes.{IsZero, gap_fill_cost-cases}
use burnly.Pricing.GapFill.{is_positive, add_amount, fill_from}

-- The micro-dollars of a cost, and of all breakdowns, with no bound.
abbrev pub amount_of : UsageCost → ℕ
amount_of (valued amount _ _ _) = amount
amount_of (not_applicable _) = 0
amount_of (unavailable _) = 0

abbrev pub sum_micros : List ModelUsageCandidate → ℕ
sum_micros [] = 0
sum_micros (m ∷ ms) = amount_of m.cost + sum_micros ms

-- A breakdown is kept, or had tokens and an amount of zero and gets a positive calculated price.
abbrev pub Filled : ModelUsageCandidate → ModelUsageCandidate → Type 0
Filled m m' =
    (m' ≡ m)
    ⊎ ((micros : ℕ) × (m' ≡ record m { cost = calculated micros })
        × (1 ≤ micros)
        × (1 ≤ m.tokens.total_tokens)
        × IsZero m.cost)

abbrev pub AllFilled : List ModelUsageCandidate → List ModelUsageCandidate → Type 0
AllFilled [] [] = Unit
AllFilled (m ∷ ms) (m' ∷ ms') = Filled m m' × AllFilled ms ms'
AllFilled _ _ = ⊥

add_amount-eq :
    (total : ℕ) (cost : UsageCost)
    → total ≤ u64_max
    → add_amount total cost ≡ min u64_max (total + amount_of cost)
unfolding saturating_add
add_amount-eq total (valued amount _ _ _) h = ground arith
add_amount-eq total (not_applicable _) h = omega arith
add_amount-eq total (unavailable _) h = omega arith

both_ways : (c d : UsageCost) → c ≡ d → ¬ ((is_positive c && not (is_positive d)) ≡ true)
both_ways c d e h = ground arith

module _ (ops : FloatOps) (snapshot : PricingSnapshot ops.F64) where
  abbrev fill_one : ModelUsageCandidate → UsageCost
  fill_one m = gap_fill_cost ops (some m.raw_model_id) m.tokens snapshot m.cost

  -- The saturating total of the loop is the bounded sum of the breakdowns that it returns.
  pub fill_from-total :
      (total : ℕ) (any : Bool) (ms : List ModelUsageCandidate)
      → total ≤ u64_max
      → (fill_from ops snapshot total any ms).1
        ≡ min u64_max (total + sum_micros (fill_from ops snapshot total any ms).0)
  unfolding fill_from
  fill_from-total total any [] h = omega arith
  fill_from-total total any (m ∷ ms) h =
      let a : ℕ = add_amount total (fill_one m) in
      omega (
        arith,
        add_amount-eq total (fill_one m) h,
        fill_from-total a (any || (is_positive (fill_one m) && not (is_positive m.cost))) ms
            (omega (arith, add_amount-eq total (fill_one m) h)),
      )

  abbrev became_valued : ModelUsageCandidate → Bool
  became_valued m = is_positive (fill_one m) && not (is_positive m.cost)

  fill_one-cases :
      (m : ModelUsageCandidate)
      → (fill_one m ≡ m.cost) ⊎ ((became_valued m ≡ true) × (1 ≤ amount_of (fill_one m)))
  fill_one-cases m = elim (gap_fill_cost-cases ops (some m.raw_model_id) m.tokens snapshot m.cost) [
    | inl same ↦ inl same
    | inr (micros, e, positive, _, zero_cost) ↦ inr (ground arith, rw e positive)
  ]

  fill_one-positive :
      (m : ModelUsageCandidate) → became_valued m ≡ true → 1 ≤ amount_of (fill_one m)
  fill_one-positive m h =
      elim (gap_fill_cost-cases ops (some m.raw_model_id) m.tokens snapshot m.cost) [
        | inl same ↦ absurd (both_ways (fill_one m) m.cost same h)
        | inr (micros, e, positive, _, zero_cost) ↦ rw e positive
      ]

  -- Nothing was filled, and nothing has changed.
  pub fill_from-unchanged :
      (total : ℕ) (any : Bool) (ms : List ModelUsageCandidate)
      → (fill_from ops snapshot total any ms).2 ≡ false
      → (any ≡ false) × ((fill_from ops snapshot total any ms).0 ≡ ms)
  unfolding fill_from
  fill_from-unchanged total any [] h = (h, refl)
  fill_from-unchanged total any (m ∷ ms) h = ground (
    arith,
    fill_one-cases m,
    fill_from-unchanged (add_amount total (fill_one m)) (any || became_valued m) ms h,
  )

  -- Something was filled, so the breakdowns sum to something.
  pub fill_from-positive :
      (total : ℕ) (any : Bool) (ms : List ModelUsageCandidate)
      → (fill_from ops snapshot total any ms).2 ≡ true
      → (any ≡ true) ⊎ (1 ≤ sum_micros (fill_from ops snapshot total any ms).0)
  unfolding fill_from
  fill_from-positive total any [] h = inl h
  fill_from-positive total any (m ∷ ms) h = ground (
    arith,
    fill_one-positive m,
    fill_from-positive (add_amount total (fill_one m)) (any || became_valued m) ms h,
  )

  fill_one-Filled : (m : ModelUsageCandidate) → Filled m (record m { cost = fill_one m })
  fill_one-Filled m =
      elim (gap_fill_cost-cases ops (some m.raw_model_id) m.tokens snapshot m.cost) [
        | inl same ↦ inl (rw same)
        | inr (micros, e, positive, used, zero_cost) ↦ inr (micros, rw e, positive, used, zero_cost)
      ]

  pub fill_from-AllFilled :
      (total : ℕ) (any : Bool) (ms : List ModelUsageCandidate)
      → AllFilled ms (fill_from ops snapshot total any ms).0
  unfolding fill_from
  fill_from-AllFilled total any [] = tt
  fill_from-AllFilled total any (m ∷ ms) = (
    fill_one-Filled m,
    fill_from-AllFilled (add_amount total (fill_one m)) (any || became_valued m) ms,
  )
