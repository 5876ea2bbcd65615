-- ===== src/Refresh/Execution/Run/Terminal.antt =====
-- What a whole refresh returns.
use burnly.Prelude.{◌≡◌, ◌≢◌, refl, Option, none, some, [], Result, ok, err}
use burnly.Prelude.Text.{Text}
use burnly.Prelude.Int.{ℤ}
use burnly.Pricing.Float.{FloatOps}
use burnly.Pricing.Snapshot.{PricingSnapshot}
use burnly.Refresh.Outcome.{RunOutcome}
use burnly.Refresh.Coordinator.{RefreshTrigger, RefreshScopePolicy}
use burnly.Refresh.Runs.{JobKey, RunValidationError, RefreshRunSpec, RefreshRunId, job_key_new}
use burnly.Refresh.Target.{refresh_targets}
use burnly.Refresh.Execution.Ports.{
  History, RefreshExecution, ExecutionResult, Abort, failed, panicked,
}
use burnly.Refresh.Execution.{Progress, start_progress}
use burnly.Refresh.Execution.Run.{
  complete_run, execute_open_refresh, terminalize, after_begin, after_spec, after_job_key,
  execute_refresh,
}
use burnly.Refresh.Execution.Run.Totality.{Ends, Always, bind-Ends, or_fail-Ends, if-Ends}
use burnly.Refresh.Execution.Run.Upload.{Tracks, start-Tracks}
use burnly.Refresh.Execution.Run.Loop.{Tracked, all_targets-Ends}

module _ (ops : FloatOps) (snapshot : PricingSnapshot (FloatOps.F64 ops))
    (context : RefreshExecution) (policy : RefreshScopePolicy) where
  -- A result that accounts for every target of a refresh.
  abbrev pub Accounts : ExecutionResult → Type 0
  Accounts result =
      Tracks context policy refresh_targets result.target_outcomes result.committed_daily_upload

  complete_run-Ends :
      (run_id : RefreshRunId) (progress : Progress) (calls : History)
      → Tracked ops snapshot context policy refresh_targets progress
      → Ends Accounts (complete_run ops snapshot context run_id progress calls)
  unfolding Ends complete_run
  complete_run-Ends run_id progress calls tracks =
      if-Ends Accounts (context.ports.succeeds _) _ _ tracks tt

  open-Ends :
      (run_id : RefreshRunId) (job_id : Text) (started_at_ms : ℤ) (calls : History)
      → Ends Accounts
          (execute_open_refresh ops snapshot context run_id policy job_id started_at_ms calls)
  unfolding execute_open_refresh
  open-Ends run_id job_id started_at_ms calls =
      bind-Ends Always _ _ _ _ (or_fail-Ends context _ _ _ _) (λ requested_at calls' _.
        bind-Ends Always _ _ _ _ (or_fail-Ends context _ _ _ _) (λ profiles calls' _.
          bind-Ends (Tracked ops snapshot context policy refresh_targets) _ _ _ _
            (all_targets-Ends ops snapshot context run_id policy job_id started_at_ms requested_at
              profiles [] refresh_targets (start_progress policy started_at_ms) calls'
              (start-Tracks context policy started_at_ms))
            (λ progress calls' tracks. complete_run-Ends run_id progress calls' tracks)))

  -- The worker's answer: it is there, and it accounts for every target unless the refresh failed.
  abbrev pub IsAnswer : Option ExecutionResult → Type 0
  IsAnswer answer =
      (result : ExecutionResult) × (answer ≡ some result)
      × (result.outcome ≢ RunOutcome.failed → Accounts result)

  terminalize-IsAnswer :
      (run_id : RefreshRunId) (m : Result ExecutionResult Abort × History)
      → Ends Accounts m
      → IsAnswer (terminalize ops snapshot context run_id m).0
  unfolding Ends
  terminalize-IsAnswer run_id (ok result, calls) h = (result, refl, λ k. h)
  terminalize-IsAnswer run_id (err (failed failure), calls) h = (_, refl, λ k. absurd (k refl))
  terminalize-IsAnswer run_id (err panicked, calls) h = absurd h

  after_begin-IsAnswer :
      (job_id : Text) (started_at_ms : ℤ) (o : Option RefreshRunId) (calls : History)
      → IsAnswer (after_begin ops snapshot context policy job_id started_at_ms o calls).0
  unfolding after_begin
  after_begin-IsAnswer job_id started_at_ms none calls = (_, refl, λ k. absurd (k refl))
  after_begin-IsAnswer job_id started_at_ms (some run_id) calls =
      terminalize-IsAnswer run_id _ (open-Ends run_id job_id started_at_ms calls)

  after_spec-IsAnswer :
      (job_id : Text) (started_at_ms : ℤ) (spec : Result RefreshRunSpec RunValidationError)
      (calls : History)
      → IsAnswer (after_spec ops snapshot context policy job_id started_at_ms spec calls).0
  unfolding after_spec
  after_spec-IsAnswer job_id started_at_ms (err e) calls = (_, refl, λ k. absurd (k refl))
  after_spec-IsAnswer job_id started_at_ms (ok spec) calls =
      after_begin-IsAnswer job_id started_at_ms _ _

  after_job_key-IsAnswer :
      (trigger : RefreshTrigger) (job_id : Text) (started_at_ms : ℤ)
      (key : Result JobKey RunValidationError) (calls : History)
      → IsAnswer
          (after_job_key ops snapshot context trigger policy job_id started_at_ms key calls).0
  unfolding after_job_key
  after_job_key-IsAnswer trigger job_id started_at_ms (err e) calls =
      (_, refl, λ k. absurd (k refl))
  after_job_key-IsAnswer trigger job_id started_at_ms (ok key) calls =
      after_spec-IsAnswer job_id started_at_ms _ calls

  -- A refresh always returns a result: its worker never panics, whatever the ports answer. Unless the
  -- result is a failure it has one outcome for each target of the catalog, in order; its upload counts
  -- as a complete history only under the full policy with every target succeeded; and each range that it
  -- hands to the upload comes from the outcome of a target that did not fail.
  pub execute_refresh-IsAnswer :
      (trigger : RefreshTrigger) (job_id : Text) (started_at_ms : ℤ) (calls : History)
      → IsAnswer (execute_refresh ops snapshot context trigger policy job_id started_at_ms calls).0
  unfolding execute_refresh
  execute_refresh-IsAnswer trigger job_id started_at_ms calls =
      after_job_key-IsAnswer trigger job_id started_at_ms (job_key_new job_id) calls
