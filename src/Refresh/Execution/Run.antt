-- ===== src/Refresh/Execution/Run.antt =====
-- `execute_open_refresh` and `execute_refresh` of src-tauri/src/application/refresh/execution.rs.
pub mod Totality
pub mod Upload
pub mod Loop
pub mod Terminal
pub mod Closing
use burnly.Prelude.{
  ℕ, Bool, true, false, ◌&&◌, ◌||◌, any, Option, none, some, List, [], ◌∷◌, ◌++◌, Result, ok, err,
  to_option, if◌then◌else◌,
}
use burnly.Prelude.Text.{Text, text}
use burnly.Prelude.Int.{ℤ}
use burnly.Domain.Source.{SourceKey, same_source}
use burnly.Collection.Request.{
  CollectionProjection, CollectionRequest, ProfileDescriptor, Instant, same_projection,
}
use burnly.Collection.Report.{CollectionResult}
use burnly.Pricing.Float.{FloatOps}
use burnly.Pricing.Snapshot.{PricingSnapshot}
use burnly.Refresh.Outcome.{
  RunOutcome, RefreshOutcome, ImportOutcome, record_outcome, outcome, refresh_outcome,
}
use burnly.Refresh.Coordinator.{RefreshTrigger, RefreshScopePolicy}
use burnly.Refresh.Runs.{
  JobKey, RunValidationError, SourceId, RefreshRunId, ImportRunId, RunError, RefreshRunCompletion,
  job_key_new, refresh_run_spec_new, RefreshRunSpec,
}
use burnly.Refresh.RequestPlan.{planned_collection_request, RequestPlanError, code, summary}
use burnly.Refresh.Target.{RefreshTarget, refresh_targets}
use burnly.CollectSync.Scope.{CommittedDailyTarget, CommittedDailyUpload}
use burnly.Refresh.Execution.Ports.{
  CollectorFailure, Call, complete_refresh_run, begin_refresh_run, resolve_source, collect,
  delete_expired_import_runs, report_target_failure, report_retention_failure, History,
  RefreshExecution, TargetRunOutcome, TargetExecutionOutcome, ExecutionResult, ExecutionFailure,
  no_upload, Abort, failed, panicked, Exec, return, continue, ◌>>=◌, complete_import_run,
}
use burnly.Refresh.Execution.{
  Progress, start_progress, or_first, run_error, is_succeeded, target_run_outcome, failure, or_fail,
  ask, committed_daily_target, persist,
}
use burnly.Refresh.Execution.Round.{
  after_collect, after_persist, append_target, collected, collection_failed, find_profile,
  is_committed, one_target, persist_failed, persisted, planned, request_or_fail, target_outcome,
}

-- The error of a completed run.
abbrev pub completion_error : RunOutcome → Option RunError → Option RunError
completion_error RunOutcome.succeeded first_error = none
completion_error RunOutcome.partial first_error = first_error
completion_error RunOutcome.failed first_error = first_error

module _ (ops : FloatOps) (snapshot : PricingSnapshot (FloatOps.F64 ops))
    (context : RefreshExecution) where
  open context use {ports, app_version, aggregation_timezone}

  unfoldable pub all_targets :
      RefreshRunId
      → RefreshScopePolicy
      → Text
      → ℤ
      → Instant
      → List ProfileDescriptor
      → List RefreshTarget
      → Progress
      → Exec Progress
  unfolding one_target
  all_targets run_id policy job_id started_at_ms requested_at profiles [] progress = return progress
  all_targets run_id policy job_id started_at_ms requested_at profiles (target ∷ targets) progress =
      do
        progress' ←
            one_target ops snapshot context run_id policy job_id started_at_ms requested_at profiles
              target progress
        all_targets run_id policy job_id started_at_ms requested_at profiles targets progress'

  abbrev pub result_of : Progress → ExecutionResult
  result_of progress = record {
    outcome = outcome progress.aggregate;
    finished_at_ms = progress.finished_at_ms;
    usage_changed = progress.usage_changed;
    committed_daily_upload = progress.upload;
    target_outcomes = progress.target_outcomes;
  }

  -- The deletion of expired import runs after a success.
  abbrev pub retention : RunOutcome → ℤ → History → History
  retention RunOutcome.succeeded finished_at_ms calls =
      let calls' = delete_expired_import_runs finished_at_ms ∷ calls in
      if ports.succeeds calls' then calls' else report_retention_failure finished_at_ms ∷ calls'
  retention RunOutcome.partial finished_at_ms calls = calls
  retention RunOutcome.failed finished_at_ms calls = calls

  -- What follows the loop.
  pub complete_run : RefreshRunId → Progress → Exec ExecutionResult
  unfolding outcome
  complete_run run_id progress calls =
      let o = outcome progress.aggregate in
      let calls' =
        complete_refresh_run run_id (record {
          outcome = refresh_outcome o;
          finished_at_ms = progress.finished_at_ms;
          error = completion_error o progress.first_error;
        })
        ∷ calls in
      if ports.succeeds calls'
      then (ok (result_of progress), retention o progress.finished_at_ms calls')
      else (
        err (
            failed (record {
              import_run_id = none;
              records_seen = 0;
              records_rejected = 0;
              finished_at_ms = progress.finished_at_ms;
              usage_changed = progress.usage_changed;
              code = text "refresh.completion";
              summary = text "Could not complete the refresh run.";
              committed_daily_upload = progress.upload;
              target_outcomes = progress.target_outcomes;
            })),
        calls',
      )

  unfoldable pub execute_open_refresh :
      RefreshRunId → RefreshScopePolicy → Text → ℤ → Exec ExecutionResult
  unfolding all_targets complete_run refresh_targets
  execute_open_refresh run_id policy job_id started_at_ms = do
    requested_at ←
        or_fail context (ports.timestamp started_at_ms) (text "refresh.time")
          (text "Refresh time is invalid.")
    profiles ← λ calls.
        or_fail context (ports.describe calls) (text "refresh.descriptor")
          (text "Could not read collector compatibility metadata.") calls
    progress ←
        all_targets run_id policy job_id started_at_ms requested_at profiles refresh_targets
          (start_progress policy started_at_ms)
    complete_run run_id progress

  abbrev pub failed_result : History → ExecutionResult
  failed_result calls = record {
    outcome = RunOutcome.failed;
    finished_at_ms = ports.now_epoch_ms calls;
    usage_changed = false;
    committed_daily_upload = no_upload;
    target_outcomes = [];
  }

  -- The completion of the import run that a failure leaves open, whose own error is ignored.
  abbrev pub close_import : ExecutionFailure → Option ImportRunId → History → History
  close_import failure none calls = calls
  close_import failure (some id) calls =
      complete_import_run id (record {
        outcome = ImportOutcome.failed;
        records_seen = failure.records_seen;
        records_rejected = failure.records_rejected;
        finished_at_ms = failure.finished_at_ms;
        error = run_error failure.code failure.summary;
      })
      ∷ calls

  -- The `match` on the result of `execute_open_refresh`; `none` is a panic of the worker.
  abbrev pub terminalize :
      RefreshRunId → Result ExecutionResult Abort × History → Option ExecutionResult × History
  terminalize run_id (ok result, calls) = (some result, calls)
  terminalize run_id (err panicked, calls) = (none, calls)
  terminalize run_id (err (failed failure), calls) = (
    some (record {
      outcome = RunOutcome.failed;
      finished_at_ms = failure.finished_at_ms;
      usage_changed = failure.usage_changed;
      committed_daily_upload = failure.committed_daily_upload;
      target_outcomes = failure.target_outcomes;
    }),
    complete_refresh_run run_id (record {
      outcome = RefreshOutcome.failed;
      finished_at_ms = failure.finished_at_ms;
      error = run_error failure.code failure.summary;
    })
        ∷ close_import failure failure.import_run_id calls,
  )

  -- After the run has been opened, or could not be.
  abbrev pub after_begin :
      RefreshScopePolicy
      → Text
      → ℤ
      → Option RefreshRunId
      → History
      → Option ExecutionResult × History
  unfolding execute_open_refresh
  after_begin policy job_id started_at_ms none calls = (some (failed_result calls), calls)
  after_begin policy job_id started_at_ms (some run_id) calls =
      terminalize run_id (execute_open_refresh run_id policy job_id started_at_ms calls)

  -- The two early returns before the run is opened.
  abbrev pub after_spec :
      RefreshScopePolicy
      → Text
      → ℤ
      → Result RefreshRunSpec RunValidationError
      → History
      → Option ExecutionResult × History
  unfolding after_begin
  after_spec policy job_id started_at_ms (err _) calls = (some (failed_result calls), calls)
  after_spec policy job_id started_at_ms (ok spec) calls =
      let calls' = begin_refresh_run spec started_at_ms ∷ calls in
      after_begin policy job_id started_at_ms (ports.begins_refresh calls') calls'

  abbrev pub after_job_key :
      RefreshTrigger
      → RefreshScopePolicy
      → Text
      → ℤ
      → Result JobKey RunValidationError
      → History
      → Option ExecutionResult × History
  unfolding after_spec refresh_run_spec_new
  after_job_key trigger policy job_id started_at_ms (err _) calls =
      (some (failed_result calls), calls)
  after_job_key trigger policy job_id started_at_ms (ok job_key) calls =
      after_spec policy job_id started_at_ms (refresh_run_spec_new job_key trigger app_version)
        calls

  unfoldable pub execute_refresh :
      RefreshTrigger → RefreshScopePolicy → Text → ℤ → History → Option ExecutionResult × History
  unfolding after_job_key job_key_new
  execute_refresh trigger policy job_id started_at_ms calls =
      after_job_key trigger policy job_id started_at_ms (job_key_new job_id) calls
