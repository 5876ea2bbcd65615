-- ===== src/Refresh/Execution/Round.antt =====
-- One round of the loop of `execute_open_refresh`, in
-- src-tauri/src/application/refresh/execution.rs.
use burnly.Prelude.{
  Bool, true, false, ◌&&◌, ◌||◌, any, Option, none, some, List, [], ◌∷◌, ◌++◌, Result, ok, err,
  if◌then◌else◌,
}
use burnly.Prelude.Text.{Text, text}
use burnly.Prelude.Int.{ℤ}
use burnly.Domain.Source.{same_source}
use burnly.Collection.Request.{
  CollectionProjection, CollectionRequest, ProfileDescriptor, Instant, same_projection,
}
use burnly.Collection.Report.{CollectionResult}
use burnly.Pricing.Float.{FloatOps}
use burnly.Pricing.Snapshot.{PricingSnapshot}
use burnly.Refresh.Outcome.{RunOutcome, record_outcome}
use burnly.Refresh.Coordinator.{RefreshScopePolicy}
use burnly.Refresh.Runs.{SourceId, RefreshRunId}
use burnly.Refresh.RequestPlan.{planned_collection_request, RequestPlanError, code, summary}
use burnly.Refresh.Target.{RefreshTarget}
use burnly.CollectSync.Scope.{CommittedDailyTarget}
use burnly.Refresh.Execution.Ports.{
  CollectorFailure, resolve_source, collect, report_target_failure, History, RefreshExecution,
  TargetRunOutcome, TargetExecutionOutcome, ExecutionResult, Abort, failed, panicked, Exec, ◌>>=◌,
}
use burnly.Refresh.Execution.{
  Progress, or_first, run_error, is_succeeded, target_run_outcome, failure, or_fail, ask,
  committed_daily_target, persist,
}

-- `.iter().find(...)` of the profile for a target.
abbrev pub find_profile : RefreshTarget → List ProfileDescriptor → Option ProfileDescriptor
unfolding same_source
find_profile target [] = none
find_profile target (profile ∷ profiles) =
    let rest = find_profile target profiles in
    if same_source profile.source target.source
      && any (λ projection. same_projection projection target.projection)
          profile.supported_projections
    then some profile
    else rest

abbrev pub append_target :
    Option CommittedDailyTarget → List CommittedDailyTarget → List CommittedDailyTarget
append_target none targets = targets
append_target (some target) targets = targets ++ target ∷ []

-- `matches!(outcome, Succeeded | Partial) && matches!(projection, Daily)`
abbrev pub is_committed : RunOutcome → CollectionProjection → Bool
is_committed RunOutcome.succeeded CollectionProjection.daily = true
is_committed RunOutcome.partial CollectionProjection.daily = true
is_committed _ _ = false

module _ (ops : FloatOps) (snapshot : PricingSnapshot (FloatOps.F64 ops))
    (context : RefreshExecution) where
  open context use {ports, app_version, aggregation_timezone}

  -- The arm of the loop for a collector's failure.
  abbrev pub collection_failed :
      RefreshTarget → CollectionRequest → CollectorFailure → Progress → Exec Progress
  collection_failed target request failure progress calls =
      let finished_at_ms = ports.now_epoch_ms calls in
      (
        ok (record {
          aggregate = record_outcome progress.aggregate RunOutcome.failed;
          finished_at_ms = finished_at_ms;
          usage_changed = progress.usage_changed;
          first_error = or_first progress.first_error (run_error failure.code failure.message);
          target_outcomes =
              progress.target_outcomes
              ++ record {
                source = target.source;
                projection = target.projection;
                effective_scope = request.scope;
                outcome = TargetRunOutcome.failed;
              }
                ∷ [];
          upload = record progress.upload { full_refresh_complete = false };
        }),
        report_target_failure target failure.code finished_at_ms ∷ calls,
      )

  abbrev pub target_outcome :
      RefreshTarget → CollectionResult → TargetRunOutcome → TargetExecutionOutcome
  target_outcome target collection o = record {
    source = target.source;
    projection = target.projection;
    effective_scope = collection.metadata.effective_scope;
    outcome = o;
  }

  -- The rest of a round after `persist` has succeeded.
  abbrev pub persisted : RefreshTarget → CollectionResult → ExecutionResult → Progress → Progress
  persisted target collection result progress = record {
    aggregate = record_outcome progress.aggregate result.outcome;
    finished_at_ms = result.finished_at_ms;
    usage_changed = progress.usage_changed || result.usage_changed;
    first_error = progress.first_error;
    target_outcomes =
        progress.target_outcomes
        ++ target_outcome target collection (target_run_outcome result.outcome) ∷ [];
    upload = record {
      targets =
          if is_committed result.outcome collection.projection
          then append_target
              (committed_daily_target context target.source collection.metadata.effective_scope)
              progress.upload.targets
          else progress.upload.targets;
      full_refresh_complete =
          if is_succeeded result.outcome then progress.upload.full_refresh_complete else false;
    };
  }

  -- The failure of `persist`, to which the loop adds the outcomes of the targets.
  abbrev pub persist_failed : RefreshTarget → CollectionResult → Progress → Abort → Abort
  persist_failed target collection progress (failed failure) = failed (record failure {
    target_outcomes =
        progress.target_outcomes ++ target_outcome target collection TargetRunOutcome.failed ∷ [];
  })
  persist_failed target collection progress panicked = panicked

  abbrev pub after_persist :
      RefreshTarget
      → CollectionResult
      → Progress
      → Result ExecutionResult Abort × History
      → Result Progress Abort × History
  after_persist target collection progress (ok result, calls) =
      (ok (persisted target collection result progress), calls)
  after_persist target collection progress (err e, calls) =
      (err (persist_failed target collection progress e), calls)

  unfoldable pub after_collect :
      RefreshRunId
      → SourceId
      → ℤ
      → RefreshTarget
      → CollectionRequest
      → Progress
      → Result CollectionResult CollectorFailure
      → Exec Progress
  unfolding persist record_outcome
  after_collect run_id source_id started_at_ms target request progress (err failure) calls =
      collection_failed target request failure progress calls
  after_collect run_id source_id started_at_ms target request progress (ok collection) calls =
      after_persist target collection progress
        (persist ops snapshot context run_id source_id started_at_ms collection calls)

  -- `context.collector.collect(...)`
  abbrev pub collected : CollectionRequest → Exec (Result CollectionResult CollectorFailure)
  collected request calls = (ok (ports.collects (collect request ∷ calls)), collect request ∷ calls)

  -- The request of a target, whose error becomes a `failure`; `none` is a panic of the planner.
  abbrev pub request_or_fail :
      Option (Result CollectionRequest RequestPlanError) → Exec CollectionRequest
  request_or_fail none calls = (err panicked, calls)
  request_or_fail (some (ok request)) calls = (ok request, calls)
  request_or_fail (some (err e)) calls =
      (err (failed (failure context (code e) (summary e) calls)), calls)

  unfoldable pub planned :
      Text
      → RefreshTarget
      → ProfileDescriptor
      → Instant
      → RefreshScopePolicy
      → Exec CollectionRequest
  unfolding planned_collection_request
  planned job_id target profile requested_at policy calls =
      request_or_fail
        (planned_collection_request ports.checked_sub_days ports.local_date
          (ports.latest_successful_import calls) (ports.requires_full_scope calls) job_id target
          profile requested_at aggregation_timezone policy)
        calls

  -- One round of the loop.
  unfoldable pub one_target :
      RefreshRunId
      → RefreshScopePolicy
      → Text
      → ℤ
      → Instant
      → List ProfileDescriptor
      → RefreshTarget
      → Progress
      → Exec Progress
  unfolding planned after_collect
  one_target run_id policy job_id started_at_ms requested_at profiles target progress = do
    profile ←
        or_fail context (find_profile target profiles) (text "refresh.descriptor")
          (text "Collector compatibility metadata is incomplete.")
    source_id ←
        ask context (resolve_source target.source started_at_ms) ports.resolves
          (text "refresh.source") (text "Could not resolve the usage source.")
    request ← planned job_id target profile requested_at policy
    answer ← collected request
    after_collect run_id source_id started_at_ms target request progress answer
