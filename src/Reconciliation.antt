-- ===== src/Reconciliation.antt =====
-- The reconciliation of collected usage into the database:
-- src-tauri/src/infrastructure/database/reconciliation (mapping.rs here), with the errors of
-- src-tauri/src/application/ports/usage_store.rs and the summaries of application/reconciliation.
pub mod Tables
pub mod Daily
use burnly.Prelude.{
  ℕ, Bool, true, false, Option, none, some, List, Result, ok, err, ◌>>=◌, leb, i64_max,
  if◌then◌else◌,
}
use burnly.Prelude.Text.{Text, text}
use burnly.Domain.TokenUsage.{TokenUsage}
use burnly.Domain.Cost.{
  CostKind, ValuedCostStatus, available, estimated, UsageCost, valued, not_applicable, unavailable,
  DataQuality,
}
use burnly.Collection.Request.{CollectionScope, full, incremental}
use burnly.Collection.Report.{CollectionOutcome}

pub data UsageStoreError : Type 0 where
  value_out_of_range backend : UsageStoreError

pub record DailyReconciliationSummary : Type 0 where
  pub upserted_days : ℕ
  pub observed_source_keys : List Text

-- The columns are not negative, so that an `i64` is a natural number here.
pub record TokenColumns : Type 0 where
  pub input : Option ℕ
  pub output : Option ℕ
  pub cache_creation : Option ℕ
  pub cache_read : Option ℕ
  pub total : ℕ
  pub unclassified : Option ℕ

unfoldable pub token_value : ℕ → Result ℕ UsageStoreError
token_value value = if leb value i64_max then ok value else err value_out_of_range

unfoldable pub optional_token : Option ℕ → Result (Option ℕ) UsageStoreError
unfolding token_value
optional_token none = ok none
optional_token (some value) = do n ← token_value value; ok (some n)

unfoldable pub token_columns : TokenUsage → Result TokenColumns UsageStoreError
unfolding optional_token token_value
token_columns tokens = do
  input ← optional_token tokens.input_tokens
  output ← optional_token tokens.output_tokens
  cache_creation ← optional_token tokens.cache_creation_tokens
  cache_read ← optional_token tokens.cache_read_tokens
  total ← token_value tokens.total_tokens
  unclassified ← optional_token tokens.unclassified_tokens
  ok (record {
    input = input;
    output = output;
    cache_creation = cache_creation;
    cache_read = cache_read;
    total = total;
    unclassified = unclassified;
  })

abbrev pub cost_kind_value : CostKind → Text
cost_kind_value CostKind.source_reported = text "source_reported"
cost_kind_value CostKind.collector_calculated = text "collector_calculated"
cost_kind_value CostKind.collector_mixed = text "collector_mixed"
cost_kind_value CostKind.burnly_calculated = text "burnly_calculated"
cost_kind_value CostKind.unknown = text "unknown"

abbrev pub valued_status_value : ValuedCostStatus → Text
valued_status_value available = text "available"
valued_status_value estimated = text "estimated"

pub record DailyCostColumns : Type 0 where
  pub amount_micros : Option ℕ
  pub currency : Option Text
  pub kind : Text
  pub status : Text

unfoldable pub daily_cost_columns : UsageCost → Result DailyCostColumns UsageStoreError
unfolding token_value
daily_cost_columns (valued amount_micros currency kind status) = do
  amount ← token_value amount_micros
  ok (record {
    amount_micros = some amount;
    currency = some currency.value;
    kind = cost_kind_value kind;
    status = valued_status_value status;
  })
daily_cost_columns (not_applicable kind) = ok (record {
  amount_micros = none;
  currency = none;
  kind = cost_kind_value kind;
  status = text "not_applicable";
})
daily_cost_columns (unavailable kind) = ok (record {
  amount_micros = none;
  currency = none;
  kind = cost_kind_value kind;
  status = text "unavailable";
})

pub record ModelCostColumns : Type 0 where
  pub amount_micros : Option ℕ
  pub currency : Option Text
  pub status : Text

unfoldable pub model_cost_columns : UsageCost → Result ModelCostColumns UsageStoreError
unfolding token_value
model_cost_columns (valued amount_micros currency _ _) = do
  amount ← token_value amount_micros
  ok (record {
    amount_micros = some amount;
    currency = some currency.value;
    status = text "estimated";
  })
model_cost_columns (not_applicable _) =
    ok (record { amount_micros = none; currency = none; status = text "unavailable" })
model_cost_columns (unavailable _) =
    ok (record { amount_micros = none; currency = none; status = text "unavailable" })

abbrev pub data_quality_value : DataQuality → Text
data_quality_value DataQuality.complete = text "complete"
data_quality_value DataQuality.partial = text "partial"

-- `matches!(scope, Full) && !matches!(outcome, Partial)`
unfoldable pub should_evaluate_absence : CollectionScope → CollectionOutcome → Bool
should_evaluate_absence full CollectionOutcome.partial = false
should_evaluate_absence full _ = true
should_evaluate_absence (incremental _) _ = false
