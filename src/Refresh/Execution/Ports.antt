-- ===== src/Refresh/Execution/Ports.antt =====
-- What src-tauri/src/application/refresh/execution.rs calls, and what its functions return: the
-- ports of src-tauri/src/application/ports, the result types of outcome.rs and the early returns.
use burnly.Prelude.{ℕ, Bool, false, Option, List, [], Result, ok, err}
use burnly.Prelude.Text.{Text}
use burnly.Prelude.Int.{ℤ}
use burnly.Domain.Source.{SourceKey}
use burnly.Domain.Identity.{NaiveDate}
use burnly.Collection.Request.{
  CollectionProjection, CollectionScope, CollectionRequest, ProfileDescriptor, Instant,
}
use burnly.Collection.Candidate.{DailyUsageCandidate, SessionUsageCandidate}
use burnly.Collection.Report.{CollectionResult, CollectionOutcome}
use burnly.Refresh.Outcome.{RunOutcome}
use burnly.Refresh.Planner.{SuccessfulImportState}
use burnly.Refresh.Runs.{
  SourceId, RefreshRunId, ImportRunId, RefreshRunSpec, RefreshRunCompletion, ImportRunSpec,
  ImportRunCompletion, ImportRunLookup,
}
use burnly.Refresh.Target.{RefreshTarget}
use burnly.CollectSync.Scope.{CommittedDailyUpload}

-- The two texts that a refresh takes from a collector's failure: `code.code()` and `to_string()`.
pub record CollectorFailure : Type 0 where
  pub code : Text
  pub message : Text

-- `DailyReconciliationRequest` and `SessionReconciliationRequest`
pub record ReconciliationRequest (Candidate : Type 0) : Type 0 where
  pub source_id : SourceId
  pub import_run_id : ImportRunId
  pub scope : CollectionScope
  pub outcome : CollectionOutcome
  pub observed_at_ms : ℤ
  pub candidates : List Candidate

-- A call that can change something outside the worker.
pub data Call : Type 0 where
  begin_refresh_run : RefreshRunSpec → ℤ → Call
  resolve_source : SourceKey → ℤ → Call
  collect : CollectionRequest → Call
  begin_import_run : ImportRunSpec → ℤ → Call
  reconcile_daily : ReconciliationRequest DailyUsageCandidate → Call
  reconcile_session : ReconciliationRequest SessionUsageCandidate → Call
  evaluate_budget : Text → ℤ → Call
  complete_import_run : ImportRunId → ImportRunCompletion → Call
  complete_refresh_run : RefreshRunId → RefreshRunCompletion → Call
  delete_expired_import_runs : ℤ → Call
  report_target_failure : RefreshTarget → Text → ℤ → Call
  report_retention_failure : ℤ → Call

-- The calls so far, the newest first.
abbrev pub History : Type 0
History = List Call

-- The answers of the ports, which depend on the calls so far, the present one included. `none` and
-- `false` are the errors whose content the code drops.
pub record Ports : Type 0 where
  pub now_epoch_ms : History → ℤ
  pub describe : History → Option (List ProfileDescriptor)
  pub begins_refresh : History → Option RefreshRunId
  pub resolves : History → Option SourceId
  pub latest_successful_import : History → ImportRunLookup → Option (Option SuccessfulImportState)
  pub requires_full_scope : History → Option Bool
  pub collects : History → Result CollectionResult CollectorFailure
  pub begins_import : History → Option ImportRunId
  pub succeeds : History → Bool
  -- chrono: `from_timestamp_millis`, `checked_sub_days`, the date in a named timezone, and the two
  -- constant dates 1970-01-01 and 2099-12-31.
  pub timestamp : ℤ → Option Instant
  pub checked_sub_days : NaiveDate → ℕ → Option NaiveDate
  pub local_date : Instant → Text → Option NaiveDate
  pub epoch : Option NaiveDate
  pub horizon : Option NaiveDate

-- `RefreshExecution`
pub record RefreshExecution : Type 0 where
  pub ports : Ports
  pub app_version : Text
  pub aggregation_timezone : Text

pub data TargetRunOutcome : Type 0 where
  succeeded partial failed : TargetRunOutcome

pub record TargetExecutionOutcome : Type 0 where
  pub source : SourceKey
  pub projection : CollectionProjection
  pub effective_scope : CollectionScope
  pub outcome : TargetRunOutcome

pub record ExecutionResult : Type 0 where
  pub outcome : RunOutcome
  pub finished_at_ms : ℤ
  pub usage_changed : Bool
  pub committed_daily_upload : CommittedDailyUpload
  pub target_outcomes : List TargetExecutionOutcome

pub record ExecutionFailure : Type 0 where
  pub import_run_id : Option ImportRunId
  pub records_seen : ℕ
  pub records_rejected : ℕ
  pub finished_at_ms : ℤ
  pub usage_changed : Bool
  pub code : Text
  pub summary : Text
  pub committed_daily_upload : CommittedDailyUpload
  pub target_outcomes : List TargetExecutionOutcome

-- `CommittedDailyUpload::default()`
abbrev pub no_upload : CommittedDailyUpload
no_upload = record { targets = []; full_refresh_complete = false }

-- How a function ends early: with its error, or with a panic.
pub data Abort : Type 0 where
  failed : ExecutionFailure → Abort
  panicked : Abort

-- A function of the worker: it continues the calls so far.
abbrev pub Exec : Type 0 → Type 0
Exec A = History → Result A Abort × History

abbrev pub return : {A : Type 0} → A → Exec A
return a calls = (ok a, calls)

abbrev pub continue :
    {A B : Type 0} → Result A Abort × History → (A → Exec B) → Result B Abort × History
continue (ok a, calls) f = f a calls
continue (err e, calls) f = (err e, calls)

infixl 5 ◌>>=◌
unfoldable pub ◌>>=◌ : {A B : Type 0} → Exec A → (A → Exec B) → Exec B
(m >>= f) calls = continue (m calls) f
