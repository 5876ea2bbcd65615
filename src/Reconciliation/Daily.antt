-- ===== src/Reconciliation/Daily.antt =====
-- The reconciliation of daily usage:
-- src-tauri/src/infrastructure/database/reconciliation/daily.rs, with resolve_model of identity.rs and
-- reconcile_daily of store.rs.
pub mod Rounds
pub mod Loop
pub mod Absences
pub mod Keys
pub mod Refines
pub mod Clock
pub mod Accepted
pub mod Ready
pub mod Rows
pub mod Models
pub mod Names
pub mod Writes
pub mod Inserts
pub mod Succeeds
mod Samples
mod Tests
use burnly.Prelude.{
  ℕ, ◌+◌, Bool, true, false, ◌&&◌, not, Option, none, some, List, [], ◌∷◌, Result, ok, err, leb,
  u32_max, length, if◌then◌else◌,
}
use burnly.Prelude.Text.{Text}
use burnly.Prelude.Int.{ℤ, same_ℤ}
use burnly.Domain.Identity.{NaiveDate}
use burnly.Collection.Candidate.{DailyUsageCandidate, ModelUsageCandidate}
use burnly.Refresh.Runs.{SourceId, ImportRunId}
use burnly.Refresh.Execution.Ports.{ReconciliationRequest}
use burnly.Reconciliation.{
  UsageStoreError, TokenColumns, DailyCostColumns, value_out_of_range, backend,
  DailyReconciliationSummary, token_columns, daily_cost_columns, model_cost_columns,
  data_quality_value, should_evaluate_absence,
}
use burnly.Reconciliation.Tables.{
  Tables, DailyUsage, DailyRow, FreshIds, RecordState, active, missing, removed,
}
use burnly.Reconciliation.Tables.Statements.{
  Transaction, ◌>>=◌, ◌>>◌, lift, continue, upsert_daily, upsert_model, delete_daily_models,
  insert_daily_model, update_daily,
}

-- `DAILY_IDENTITY_VERSION`
abbrev pub daily_identity_version : ℕ
daily_identity_version = 1

-- `record_state = …` in a WHERE clause.
abbrev pub is_state : RecordState → RecordState → Bool
is_state active active = true
is_state missing missing = true
is_state removed removed = true
is_state _ _ = false

-- What the rows that are missing, and those that are active, become.
abbrev pub remove_at : ℤ → DailyUsage → DailyUsage
remove_at now_ms usage = record usage {
  record_state = removed;
  absence_count = usage.absence_count + 1;
  removed_at_ms = some now_ms;
}

abbrev pub miss : DailyUsage → DailyUsage
miss usage = record usage { record_state = missing; absence_count = 1 }

-- The rows of the source in a state, which another import has seen last.
abbrev pub is_absent : SourceId → ImportRunId → RecordState → DailyRow → Bool
is_absent source_id import_run_id state row =
    same_ℤ row.source_id source_id.value
    && not (same_ℤ row.usage.latest_import_id import_run_id.value)
    && is_state row.usage.record_state state

unfoldable pub advance_absences : SourceId → ImportRunId → ℤ → Transaction Unit
advance_absences source_id import_run_id now_ms =
    update_daily (is_absent source_id import_run_id missing) (remove_at now_ms)
    >> update_daily (is_absent source_id import_run_id active) miss

module _ (fresh : FreshIds) (display : NaiveDate → Text) where
  -- The values of the INSERT of a candidate.
  abbrev pub usage_from :
      ImportRunId
      → ℤ
      → DailyUsageCandidate
      → Result TokenColumns UsageStoreError
      → Result DailyCostColumns UsageStoreError
      → Result DailyUsage UsageStoreError
  usage_from import_run_id observed_at_ms candidate (err e) _ = err e
  usage_from import_run_id observed_at_ms candidate (ok tokens) (err e) = err e
  usage_from import_run_id observed_at_ms candidate (ok tokens) (ok cost) = ok (record {
    identity_version = daily_identity_version;
    usage_date = display candidate.usage_date;
    aggregation_timezone = candidate.aggregation_timezone;
    tokens = tokens;
    cost = cost;
    data_quality = data_quality_value candidate.provenance.data_quality;
    record_state = active;
    absence_count = 0;
    first_seen_at_ms = observed_at_ms;
    last_seen_at_ms = observed_at_ms;
    removed_at_ms = none;
    latest_import_id = import_run_id.value;
  })

  unfoldable pub usage_of :
      ImportRunId → ℤ → DailyUsageCandidate → Result DailyUsage UsageStoreError
  usage_of import_run_id observed_at_ms candidate =
      usage_from import_run_id observed_at_ms candidate (token_columns candidate.tokens)
        (daily_cost_columns candidate.cost)

  unfoldable pub upsert_daily_usage :
      SourceId → ImportRunId → ℤ → DailyUsageCandidate → Transaction ℤ
  upsert_daily_usage source_id import_run_id observed_at_ms candidate =
      lift (usage_of import_run_id observed_at_ms candidate)
      >>= upsert_daily fresh source_id.value candidate.source_key

  unfoldable pub insert_daily_model_usage :
      SourceId → ImportRunId → ℤ → ℤ → ModelUsageCandidate → Transaction Unit
  insert_daily_model_usage source_id import_run_id daily_usage_id model_id model = do
    tokens ← lift (token_columns model.tokens)
    cost ← lift (model_cost_columns model.cost)
    insert_daily_model (record {
      daily_usage_id = daily_usage_id;
      source_id = source_id.value;
      model_id = model_id;
      tokens = tokens;
      cost = cost;
      latest_import_id = import_run_id.value;
    })

  unfoldable pub resolve_model : SourceId → ℤ → ModelUsageCandidate → Transaction ℤ
  resolve_model source_id observed_at_ms model =
      upsert_model fresh source_id.value model.raw_model_id observed_at_ms

  unfoldable pub insert_models :
      SourceId → ImportRunId → ℤ → ℤ → List ModelUsageCandidate → Transaction Unit
  insert_models source_id import_run_id observed_at_ms daily_usage_id [] = lift (ok tt)
  insert_models source_id import_run_id observed_at_ms daily_usage_id (model ∷ models) = do
    model_id ← resolve_model source_id observed_at_ms model
    insert_daily_model_usage source_id import_run_id daily_usage_id model_id model
    insert_models source_id import_run_id observed_at_ms daily_usage_id models

  unfoldable pub replace_model_breakdowns :
      SourceId → ImportRunId → ℤ → ℤ → DailyUsageCandidate → Transaction Unit
  replace_model_breakdowns source_id import_run_id observed_at_ms daily_usage_id candidate =
      delete_daily_models daily_usage_id
      >> insert_models source_id import_run_id observed_at_ms daily_usage_id
          candidate.model_breakdowns

  -- One round of the loop over the candidates.
  unfoldable pub reconcile_candidate :
      SourceId → ImportRunId → ℤ → DailyUsageCandidate → Transaction Unit
  reconcile_candidate source_id import_run_id observed_at_ms candidate =
      upsert_daily_usage source_id import_run_id observed_at_ms candidate >>= λ daily_usage_id.
      replace_model_breakdowns source_id import_run_id observed_at_ms daily_usage_id candidate

  -- The loop, with the observed source keys.
  unfoldable pub reconcile_candidates :
      SourceId → ImportRunId → ℤ → List DailyUsageCandidate → Transaction (List Text)
  reconcile_candidates source_id import_run_id observed_at_ms [] = lift (ok [])
  reconcile_candidates source_id import_run_id observed_at_ms (candidate ∷ candidates) = do
    reconcile_candidate source_id import_run_id observed_at_ms candidate
    keys ← reconcile_candidates source_id import_run_id observed_at_ms candidates
    lift (ok (candidate.source_key ∷ keys))

  -- `if should_evaluate_absence(…) { advance_absences(…)?; }`
  unfoldable pub evaluate_absences : ReconciliationRequest DailyUsageCandidate → Transaction Unit
  evaluate_absences request =
      if should_evaluate_absence request.scope request.outcome
      then advance_absences request.source_id request.import_run_id request.observed_at_ms
      else lift (ok tt)

  unfoldable pub summary_of : List Text → Result DailyReconciliationSummary UsageStoreError
  summary_of keys =
      if leb (length keys) u32_max
      then ok (record { upserted_days = length keys; observed_source_keys = keys })
      else err value_out_of_range

  unfoldable pub reconcile_daily_in_transaction :
      ReconciliationRequest DailyUsageCandidate → Transaction DailyReconciliationSummary
  reconcile_daily_in_transaction request = do
    keys ←
        reconcile_candidates request.source_id request.import_run_id request.observed_at_ms
          request.candidates
    evaluate_absences request
    lift (summary_of keys)

  -- What the caller gets and the tables that stay. A transaction that is dropped is rolled back.
  abbrev pub commit :
      (commits : Bool)
      → Tables
      → Result (DailyReconciliationSummary × Tables) UsageStoreError
      → Result DailyReconciliationSummary UsageStoreError × Tables
  commit commits tables (err e) = (err e, tables)
  commit commits tables (ok (summary, tables')) =
      if commits then (ok summary, tables') else (err backend, tables)

  -- `begins` and `commits` say whether SQLite begins and commits the transaction.
  unfoldable pub reconcile_daily :
      (begins commits : Bool)
      → ReconciliationRequest DailyUsageCandidate
      → Tables
      → Result DailyReconciliationSummary UsageStoreError × Tables
  unfolding reconcile_daily_in_transaction
  reconcile_daily begins commits request tables =
      if begins
      then commit commits tables (reconcile_daily_in_transaction request tables)
      else (err backend, tables)
