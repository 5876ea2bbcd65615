-- ===== src/Domain/TokenUsage.antt =====
-- `TokenUsage` of src-tauri/src/domain/usage.rs: the token counts of one usage record.
-- A `u64` is a natural number; what it may reach is a hypothesis of the theorems.
pub mod Totals
use burnly.Prelude.{
  ℕ, ◌-◌, Bool, true, false, ◌&&◌, Option, none, some, List, [], ◌∷◌, Result, ok, err, ◌>>=◌, ok_or,
  ltb, if◌then◌else◌, checked_add,
}

pub record TokenUsage : Type 0 where
  pub input_tokens : Option ℕ
  pub output_tokens : Option ℕ
  pub cache_creation_tokens : Option ℕ
  pub cache_read_tokens : Option ℕ
  pub total_tokens : ℕ
  pub unclassified_tokens : Option ℕ

pub data UsageValidationError : Type 0 where
  token_overflow : UsageValidationError
  classified_tokens_exceed_total : ℕ → ℕ → UsageValidationError
  invalid_currency_code : UsageValidationError

abbrev pub is_some : Option ℕ → Bool
is_some none = false
is_some (some _) = true

-- `.into_iter().flatten()`
abbrev pub flatten : List (Option ℕ) → List ℕ
flatten [] = []
flatten (none ∷ os) = flatten os
flatten (some n ∷ os) = n ∷ flatten os

-- `.try_fold(acc, u64::checked_add)`
pub try_fold_add : ℕ → List ℕ → Option ℕ
unfolding checked_add
try_fold_add acc [] = some acc
try_fold_add acc (n ∷ ns) = elim (checked_add acc n) [
  | none ↦ none
  | some sum ↦ try_fold_add sum ns
]

-- The record that `new` builds.
abbrev pub build : Option ℕ → Option ℕ → Option ℕ → Option ℕ → ℕ → ℕ → TokenUsage
build input output creation read total classified = record {
  input_tokens = input;
  output_tokens = output;
  cache_creation_tokens = creation;
  cache_read_tokens = read;
  total_tokens = total;
  unclassified_tokens =
      if is_some input && is_some output && is_some creation && is_some read
      then some (total - classified)
      else none;
}

unfoldable pub new :
    Option ℕ → Option ℕ → Option ℕ → Option ℕ → ℕ → Result TokenUsage UsageValidationError
unfolding try_fold_add
new input output creation read total = do
  classified ←
      ok_or (try_fold_add 0 (flatten (input ∷ output ∷ creation ∷ read ∷ []))) token_overflow
  if ltb total classified
      then err (classified_tokens_exceed_total classified total)
      else ok (build input output creation read total classified)
