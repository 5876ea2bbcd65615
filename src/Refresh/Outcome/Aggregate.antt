-- ===== src/Refresh/Outcome/Aggregate.antt =====
-- The aggregate outcome of a refresh, against the outcomes of its targets.
use burnly.Prelude.{
  ℕ, ◌+◌, ◌≤◌, ◌≡◌, refl, Bool, true, false, ◌&&◌, List, [], ◌∷◌, ◌==◌, if◌then◌else◌, length, all,
  arith, u16_max,
}
use burnly.Refresh.Outcome.{
  RunOutcome, TargetRunAccumulator, no_targets, record_outcome, record_all, outcome,
}

abbrev pub is_succeeded : RunOutcome → Bool
is_succeeded RunOutcome.succeeded = true
is_succeeded _ = false

abbrev pub is_failed : RunOutcome → Bool
is_failed RunOutcome.failed = true
is_failed _ = false

abbrev is_partial : RunOutcome → Bool
is_partial RunOutcome.partial = true
is_partial _ = false

-- What a refresh should report: success if every target succeeded, failure if every target
-- failed, and otherwise that it was partial.
abbrev pub aggregate : List RunOutcome → RunOutcome
aggregate rs =
    if all is_succeeded rs
    then RunOutcome.succeeded
    else if all is_failed rs
    then RunOutcome.failed
    else RunOutcome.partial

abbrev count : (RunOutcome → Bool) → List RunOutcome → ℕ
count p [] = 0
count p (r ∷ rs) = (if p r then 1 else 0) + count p rs

abbrev total : TargetRunAccumulator → ℕ
total acc = acc.succeeded + acc.partial + acc.failed

record_all-counts :
    (acc : TargetRunAccumulator) (rs : List RunOutcome)
    → total acc + length rs ≤ u16_max
    → ((record_all acc rs).succeeded ≡ acc.succeeded + count is_succeeded rs)
      × ((record_all acc rs).partial ≡ acc.partial + count is_partial rs)
      × ((record_all acc rs).failed ≡ acc.failed + count is_failed rs)
unfolding record_all
record_all-counts acc [] h = (omega arith, omega arith, omega arith)
record_all-counts acc (r ∷ rs) h = ground (arith, record_all-counts (record_outcome acc r) rs)

all-by-counts :
    (rs : List RunOutcome)
    → (all is_succeeded rs ≡ (count is_failed rs == 0 && count is_partial rs == 0))
      × (all is_failed rs ≡ (count is_succeeded rs == 0 && count is_partial rs == 0))
all-by-counts [] = (refl, refl)
all-by-counts (r ∷ rs) = ground (arith, all-by-counts rs)

-- As long as the 16-bit counters do not wrap, the accumulator reports what the targets add up to.
pub outcome-eq-aggregate :
    (rs : List RunOutcome) → length rs ≤ u16_max → outcome (record_all no_targets rs) ≡ aggregate rs
unfolding outcome
outcome-eq-aggregate rs h = ground (arith, record_all-counts no_targets rs, all-by-counts rs)
