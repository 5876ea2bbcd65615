-- ===== src/Refresh/Execution.antt =====
-- src-tauri/src/application/refresh/execution.rs.
pub mod Ports
pub mod Round
pub mod Run
use burnly.Prelude.{
  ℕ, Bool, true, false, ◌&&◌, ◌||◌, any, Option, none, some, List, [], ◌∷◌, ◌++◌, map, length,
  Result, ok, err, to_option, if◌then◌else◌,
}
use burnly.Prelude.Text.{Text, text}
use burnly.Prelude.Int.{ℤ}
use burnly.Domain.Source.{SourceKey, same_source, as_str}
use burnly.Domain.Identity.{NaiveDate}
use burnly.Collection.Request.{
  CollectionProjection, CollectionScope, full, incremental, CollectionRequest, ProfileDescriptor,
  Instant, same_projection,
}
use burnly.Collection.Candidate.{DailyUsageCandidate, SessionUsageCandidate}
use burnly.Collection.Report.{CollectionResult}
use burnly.Pricing.Float.{FloatOps}
use burnly.Pricing.Snapshot.{PricingSnapshot}
use burnly.Pricing.GapFill.{gap_fill_daily, gap_fill_session}
use burnly.Refresh.Outcome.{
  RunOutcome, RefreshOutcome, ImportOutcome, TargetRunAccumulator, no_targets, record_outcome,
  outcome, from_collection, refresh_outcome, import_outcome, clamp_count,
}
use burnly.Refresh.Coordinator.{RefreshTrigger, RefreshScopePolicy}
use burnly.Refresh.Runs.{
  SourceId, RefreshRunId, ImportRunId, RunError, run_error_new, job_key_new, refresh_run_spec_new,
  import_collector_new, import_run_spec_new, RefreshRunSpec, ImportRunSpec,
}
use burnly.Refresh.RequestPlan.{planned_collection_request, code, summary}
use burnly.Refresh.Target.{RefreshTarget, refresh_targets, import_timezone, records_seen}
use burnly.CollectSync.Scope.{CommittedDailyTarget, CommittedDailyUpload}
use burnly.Refresh.Execution.Ports.*

-- `run_error` of outcome.rs
abbrev pub run_error : Text → Text → Option RunError
unfolding run_error_new
run_error code summary = to_option (run_error_new code summary)

-- `matches!(outcome, RunOutcome::Succeeded)`
abbrev pub is_succeeded : RunOutcome → Bool
is_succeeded RunOutcome.succeeded = true
is_succeeded RunOutcome.partial = false
is_succeeded RunOutcome.failed = false

abbrev pub target_run_outcome : RunOutcome → TargetRunOutcome
target_run_outcome RunOutcome.succeeded = TargetRunOutcome.succeeded
target_run_outcome RunOutcome.partial = TargetRunOutcome.partial
target_run_outcome RunOutcome.failed = TargetRunOutcome.failed

abbrev pub is_full : RefreshScopePolicy → Bool
is_full RefreshScopePolicy.full = true
is_full RefreshScopePolicy.catch_up = false
is_full RefreshScopePolicy.freshness = false

-- The variables of the loop of `execute_open_refresh`.
pub record Progress : Type 0 where
  pub aggregate : TargetRunAccumulator
  pub finished_at_ms : ℤ
  pub usage_changed : Bool
  pub first_error : Option RunError
  pub target_outcomes : List TargetExecutionOutcome
  pub upload : CommittedDailyUpload

abbrev pub start_progress : RefreshScopePolicy → ℤ → Progress
start_progress policy started_at_ms = record {
  aggregate = no_targets;
  finished_at_ms = started_at_ms;
  usage_changed = false;
  first_error = none;
  target_outcomes = [];
  upload = record { targets = []; full_refresh_complete = is_full policy };
}

abbrev pub or_first : Option RunError → Option RunError → Option RunError
or_first none error = error
or_first (some error) _ = some error

module _ (context : RefreshExecution) where
  open context use {ports, aggregation_timezone}

  -- `failure` and `import_failure`
  abbrev pub failure : Text → Text → History → ExecutionFailure
  failure code summary calls = record {
    import_run_id = none;
    records_seen = 0;
    records_rejected = 0;
    finished_at_ms = ports.now_epoch_ms calls;
    usage_changed = false;
    code = code;
    summary = summary;
    committed_daily_upload = no_upload;
    target_outcomes = [];
  }

  abbrev pub import_failure : ImportRunId → ℕ → ℕ → Bool → Text → Text → History → ExecutionFailure
  import_failure id seen rejected changed code summary calls = record (failure code summary calls) {
    import_run_id = some id;
    records_seen = seen;
    records_rejected = rejected;
    usage_changed = changed;
  }

  -- `.ok_or_else(|| failure(context, code, summary))?`
  unfoldable pub or_fail : {A : Type 0} → Option A → Text → Text → Exec A
  or_fail (some a) code summary calls = (ok a, calls)
  or_fail none code summary calls = (err (failed (failure code summary calls)), calls)

  -- A call whose error becomes a `failure`.
  unfoldable pub ask : {A : Type 0} → Call → (History → Option A) → Text → Text → Exec A
  ask call answer code summary calls = or_fail (answer (call ∷ calls)) code summary (call ∷ calls)

  -- `committed_daily_target`
  abbrev pub committed_daily_target : SourceKey → CollectionScope → Option CommittedDailyTarget
  committed_daily_target source full = elim ports.epoch [
    | none ↦ none
    | some first ↦ elim ports.horizon [
      | none ↦ none
      | some last ↦ some (record {
        source_key = as_str source;
        start_date = first;
        end_date = last;
        full_history = true;
      })
    ]
  ]
  committed_daily_target source (incremental range) = some (record {
    source_key = as_str source;
    start_date = range.start_date;
    end_date = range.end_date;
    full_history = false;
  })

module _ (ops : FloatOps) (snapshot : PricingSnapshot (FloatOps.F64 ops))
    (context : RefreshExecution) where
  open context use {ports, aggregation_timezone}

  -- The two arms of `reconcile_collection`; `false` is the error.
  pub reconcile_days : SourceId → ImportRunId → ℤ → CollectionResult → Exec Bool
  unfolding gap_fill_daily
  reconcile_days source_id import_run_id now_ms collection calls =
      let request : ReconciliationRequest DailyUsageCandidate = record {
        source_id = source_id;
        import_run_id = import_run_id;
        scope = collection.metadata.effective_scope;
        outcome = collection.outcome;
        observed_at_ms = now_ms;
        candidates =
            map (λ candidate. gap_fill_daily ops candidate snapshot) collection.daily_candidates;
      } in
      let calls' = reconcile_daily request ∷ calls in
      if ports.succeeds calls'
      then (ok true, evaluate_budget aggregation_timezone now_ms ∷ calls')
      else (ok false, calls')

  pub reconcile_sessions : SourceId → ImportRunId → ℤ → CollectionResult → Exec Bool
  unfolding gap_fill_session
  reconcile_sessions source_id import_run_id now_ms collection calls =
      let request : ReconciliationRequest SessionUsageCandidate = record {
        source_id = source_id;
        import_run_id = import_run_id;
        scope = collection.metadata.effective_scope;
        outcome = collection.outcome;
        observed_at_ms = now_ms;
        candidates =
            map (λ candidate. gap_fill_session ops candidate snapshot)
              collection.session_candidates;
      } in
      let calls' = reconcile_session request ∷ calls in (ok (ports.succeeds calls'), calls')

  pub reconcile_collection : SourceId → ImportRunId → ℤ → CollectionResult → Exec Bool
  unfolding reconcile_days reconcile_sessions
  reconcile_collection source_id import_run_id now_ms collection = elim collection.projection [
    | CollectionProjection.daily ↦ reconcile_days source_id import_run_id now_ms collection
    | CollectionProjection.session ↦ reconcile_sessions source_id import_run_id now_ms collection
  ]

  -- The end of `persist`, after the reconciliation.
  pub complete_import : ImportRunId → CollectionResult → Bool → Exec ExecutionResult
  complete_import import_run_id collection reconciled calls =
      let seen = records_seen collection in
      let rejected = clamp_count (length collection.rejections) in
      let outcome = from_collection collection.outcome in
      let finished_at_ms = ports.now_epoch_ms calls in
      let calls' =
        complete_import_run import_run_id (record {
          outcome = import_outcome outcome;
          records_seen = seen;
          records_rejected = rejected;
          finished_at_ms = finished_at_ms;
          error = none;
        })
        ∷ calls in
      if reconciled
      then if ports.succeeds calls'
        then (
          ok (record {
            outcome = outcome;
            finished_at_ms = finished_at_ms;
            usage_changed = true;
            committed_daily_upload = no_upload;
            target_outcomes = [];
          }),
          calls',
        )
        else (
          err (
              failed (
                import_failure context import_run_id seen rejected true
                  (text "refresh.import_completion") (text "Could not complete the import run.")
                  calls')),
          calls',
        )
      else (
        err (
            failed (
              import_failure context import_run_id seen rejected false
                (text "refresh.reconciliation") (text "Could not reconcile collected usage.")
                calls)),
        calls,
      )

  pub persist : RefreshRunId → SourceId → ℤ → CollectionResult → Exec ExecutionResult
  unfolding import_collector_new import_run_spec_new reconcile_collection complete_import
  persist refresh_run_id source_id now_ms collection = do
    collector ←
        or_fail context
          (to_option (
            import_collector_new collection.metadata.collector.value
              collection.metadata.collector_version collection.metadata.profile_version))
          (text "refresh.metadata") (text "Collector metadata is invalid.")
    spec ←
        or_fail context
          (to_option (
            import_run_spec_new refresh_run_id source_id collector collection.projection
              collection.metadata.effective_scope
              (import_timezone collection.projection aggregation_timezone)))
          (text "refresh.import") (text "Import metadata is invalid.")
    import_run_id ←
        ask context (begin_import_run spec now_ms) ports.begins_import (text "refresh.import")
          (text "Could not begin the import run.")
    reconciled ← reconcile_collection source_id import_run_id now_ms collection
    complete_import import_run_id collection reconciled
