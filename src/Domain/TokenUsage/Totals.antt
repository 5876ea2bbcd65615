-- ===== src/Domain/TokenUsage/Totals.antt =====
-- What `TokenUsage::new` accepts and computes, against a plain sum of the known categories.
use burnly.Prelude.{
  ◌-◌, ℕ, ◌+◌, ◌≤◌, ◌<◌, ◌≡◌, Option, none, some, List, [], ◌∷◌, ok, err, arith, leb, if◌then◌else◌,
  ltb, u64_max, checked_add, Bool, true, false,
}
use burnly.Domain.TokenUsage.{
  TokenUsage, token_overflow, classified_tokens_exceed_total, flatten, try_fold_add, build, new,
}

-- The sum of the known categories, with no bound.
abbrev pub known : Option ℕ → ℕ
known none = 0
known (some n) = n

abbrev pub classified_sum : Option ℕ → Option ℕ → Option ℕ → Option ℕ → ℕ
classified_sum input output creation read = known input + known output + known creation + known read

abbrev sum : List ℕ → ℕ
sum [] = 0
sum (n ∷ ns) = n + sum ns

-- The checked fold fails exactly when the sum passes the largest `u64`.
try_fold_add-eq :
    (acc : ℕ) (ns : List ℕ)
    → acc ≤ u64_max
    → try_fold_add acc ns ≡ (if leb (acc + sum ns) u64_max then some (acc + sum ns) else none)
unfolding try_fold_add checked_add
try_fold_add-eq acc [] h = ground arith
try_fold_add-eq acc (n ∷ ns) h = ground (arith, try_fold_add-eq (acc + n) ns)

flatten-sum :
    (input output creation read : Option ℕ)
    → sum (flatten (input ∷ output ∷ creation ∷ read ∷ []))
      ≡ classified_sum input output creation read
flatten-sum input output creation read = ground arith

-- Whether all four categories are known.
abbrev all_known : Option ℕ → Option ℕ → Option ℕ → Option ℕ → Bool
all_known (some _) (some _) (some _) (some _) = true
all_known _ _ _ _ = false

-- What a `TokenUsage` promises: the known categories fit the total, and what they leave of it is
-- known exactly when all four of them are.
pub record IsValid (t : TokenUsage) : Type 0 where
  pub within :
      classified_sum t.input_tokens t.output_tokens t.cache_creation_tokens t.cache_read_tokens
      ≤ t.total_tokens
  pub rest_known :
      all_known t.input_tokens t.output_tokens t.cache_creation_tokens t.cache_read_tokens ≡ true
      → t.unclassified_tokens
        ≡ some (
            t.total_tokens
            - classified_sum t.input_tokens t.output_tokens t.cache_creation_tokens
                t.cache_read_tokens)
  pub rest_unknown :
      all_known t.input_tokens t.output_tokens t.cache_creation_tokens t.cache_read_tokens ≡ false
      → t.unclassified_tokens ≡ none

module _ (input output creation read : Option ℕ) (total : ℕ) where
  new-cases : new input output creation read total ≡ (
      let sum = classified_sum input output creation read in
      if ltb u64_max sum
      then err token_overflow
      else if ltb total sum
      then err (classified_tokens_exceed_total sum total)
      else ok (build input output creation read total sum))
  unfolding new
  new-cases = ground (
    arith,
    try_fold_add-eq 0 (flatten (input ∷ output ∷ creation ∷ read ∷ [])),
    flatten-sum input output creation read,
  )

  -- Every record that `new` returns is valid and carries the counts that were given.
  pub new-IsValid :
      {t : TokenUsage}
      → new input output creation read total ≡ ok t
      → IsValid t
        × (t.input_tokens ≡ input)
        × (t.output_tokens ≡ output)
        × (t.cache_creation_tokens ≡ creation)
        × (t.cache_read_tokens ≡ read)
        × (t.total_tokens ≡ total)
  new-IsValid h = ground (arith, new-cases)

  -- The two refusals: an overflow is reported exactly when the sum passes the largest `u64`, and
  -- otherwise a sum above the total is reported with both numbers.
  pub new-errors :
      (u64_max < classified_sum input output creation read
        → new input output creation read total ≡ err token_overflow)
      × (classified_sum input output creation read ≤ u64_max
          → total < classified_sum input output creation read
          → new input output creation read total
            ≡ err
                (classified_tokens_exceed_total (classified_sum input output creation read) total))
  new-errors = (λ h. ground (arith, new-cases), λ h k. ground (arith, new-cases))
