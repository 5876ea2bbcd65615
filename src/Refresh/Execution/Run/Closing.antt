-- ===== src/Refresh/Execution/Run/Closing.antt =====
-- The completion of an opened refresh run.
use mathlib.Core.Path.{subst}
use burnly.Prelude.{
  ◌≡◌, refl, sym, ap, ◌∙◌, Bool, true, false, some, [], ◌∷◌, ◌++◌, ◌⊎◌, Bool-cases, Result, ok, err,
  arith, inl, inr, if◌then◌else◌,
}
use burnly.Prelude.Text.{Text}
use burnly.Prelude.Int.{ℤ}
use burnly.Pricing.Float.{FloatOps}
use burnly.Pricing.Snapshot.{PricingSnapshot}
use burnly.Refresh.Outcome.{outcome, RunOutcome, refresh_outcome}
use burnly.Refresh.Coordinator.{RefreshTrigger, RefreshScopePolicy}
use burnly.Refresh.Runs.{
  RefreshRunId, JobKey, RefreshRunSpec, RefreshRunCompletion, job_key_new, refresh_run_spec_new,
}
use burnly.Refresh.Execution.Ports.{
  complete_refresh_run, delete_expired_import_runs, report_retention_failure, begin_refresh_run,
  History, RefreshExecution, ExecutionResult, Abort, failed, panicked, Exec, ◌>>=◌, continue,
}
use burnly.Refresh.Execution.{Progress}
use burnly.Refresh.Execution.Run.{
  retention, complete_run, completion_error, execute_open_refresh, terminalize, after_begin,
  after_spec, after_job_key, execute_refresh,
}

module _ (succeeds : History → Bool) (run_id : RefreshRunId) where
  -- The store has been asked to complete the run with the outcome and at the time of a result. It
  -- did, or the result is a failure.
  abbrev pub IsClosed : ExecutionResult → History → Type 0
  IsClosed result calls =
      (completion : RefreshRunCompletion) × (later : History) × (earlier : History) × (calls
        ≡ later ++ complete_refresh_run run_id completion ∷ earlier)
      × (completion.outcome ≡ refresh_outcome result.outcome)
      × (completion.finished_at_ms ≡ result.finished_at_ms)
      × ((succeeds (complete_refresh_run run_id completion ∷ earlier) ≡ true)
          ⊎ (result.outcome ≡ RunOutcome.failed))

  -- That, of whatever returns a result.
  unfoldable Closes : Result ExecutionResult Abort × History → Type 0
  Closes (ok result, calls) = IsClosed result calls
  Closes (err e, calls) = Unit

  continue-Closes :
      {A : Type 0} (m : Result A Abort × History) (f : A → Exec ExecutionResult)
      → ((a : A) (calls : History) → Closes (f a calls))
      → Closes (continue m f)
  unfolding Closes
  continue-Closes (ok a, calls) f h = h a calls
  continue-Closes (err e, calls) f h = tt

  bind-Closes :
      {A : Type 0} (m : Exec A) (f : A → Exec ExecutionResult) (calls : History)
      → ((a : A) (calls' : History) → Closes (f a calls'))
      → Closes ((m >>= f) calls)
  unfolding ◌>>=◌
  bind-Closes m f calls h = continue-Closes (m calls) f h

  if-Closes :
      (b : Bool) (m n : Result ExecutionResult Abort × History)
      → Closes m
      → Closes n
      → Closes (if b then m else n)
  if-Closes true m n h k = h
  if-Closes false m n h k = k

module _ (ops : FloatOps) (snapshot : PricingSnapshot (FloatOps.F64 ops))
    (context : RefreshExecution) where
  -- What the retention calls comes after the calls so far.
  retention-later :
      (o : RunOutcome) (at : ℤ) (calls : History)
      → (later : History) × (retention ops snapshot context o at calls ≡ later ++ calls)
  retention-later RunOutcome.succeeded at calls =
      elim (Bool-cases (context.ports.succeeds (delete_expired_import_runs at ∷ calls))) [
        | inl e ↦ (delete_expired_import_runs at ∷ [], rw e refl)
        | inr e ↦ (report_retention_failure at ∷ delete_expired_import_runs at ∷ [], rw e refl)
      ]
  retention-later RunOutcome.partial at calls = ([], refl)
  retention-later RunOutcome.failed at calls = ([], refl)

  complete_run-Closes :
      (run_id : RefreshRunId) (progress : Progress) (calls : History)
      → Closes context.ports.succeeds run_id
          (complete_run ops snapshot context run_id progress calls)
  unfolding Closes complete_run
  complete_run-Closes run_id progress calls =
      let o = outcome progress.aggregate in
      let completion : RefreshRunCompletion = record {
        outcome = refresh_outcome o;
        finished_at_ms = progress.finished_at_ms;
        error = completion_error o progress.first_error;
      } in
      let calls' : History = complete_refresh_run run_id completion ∷ calls in
      elim (Bool-cases (context.ports.succeeds calls')) [
        | inl e ↦
            let (later, same) = retention-later o progress.finished_at_ms calls' in
            rw e (completion, later, calls, same, refl, refl, inl e)
        | inr e ↦ rw e tt
      ]

  open-Closes :
      (run_id : RefreshRunId) (policy : RefreshScopePolicy) (job_id : Text) (started_at_ms : ℤ)
      (calls : History)
      → Closes context.ports.succeeds run_id
          (execute_open_refresh ops snapshot context run_id policy job_id started_at_ms calls)
  unfolding execute_open_refresh
  open-Closes run_id policy job_id started_at_ms calls =
      bind-Closes context.ports.succeeds run_id _ _ _ (λ requested_at calls'.
        bind-Closes context.ports.succeeds run_id _ _ _ (λ profiles calls'.
          bind-Closes context.ports.succeeds run_id _ _ _
            (λ progress calls'. complete_run-Closes run_id progress calls')))

  terminalize-Closes :
      (run_id : RefreshRunId) (m : Result ExecutionResult Abort × History)
      (result : ExecutionResult)
      → Closes context.ports.succeeds run_id m
      → (terminalize ops snapshot context run_id m).0 ≡ some result
      → IsClosed context.ports.succeeds run_id result (terminalize ops snapshot context run_id m).1
  unfolding Closes
  terminalize-Closes run_id (ok r, calls) result h e =
      let same : r ≡ result = ground arith in
      subst (λ x. IsClosed context.ports.succeeds run_id x calls) same h
  terminalize-Closes run_id (err (failed failure), calls) result h e =
      let ended : RunOutcome.failed ≡ result.outcome = ground arith in
      (_, [], _, refl, ap refresh_outcome ended, ground arith, inr (sym ended))
  terminalize-Closes run_id (err panicked, calls) result h e = absurd (ground arith)

  execute-opened :
      (trigger : RefreshTrigger) (policy : RefreshScopePolicy) (job_id : Text) (started_at_ms : ℤ)
      (calls : History) (key : JobKey) (spec : RefreshRunSpec) (run_id : RefreshRunId)
      → job_key_new job_id ≡ ok key
      → refresh_run_spec_new key trigger context.app_version ≡ ok spec
      → context.ports.begins_refresh (begin_refresh_run spec started_at_ms ∷ calls) ≡ some run_id
      → execute_refresh ops snapshot context trigger policy job_id started_at_ms calls
        ≡ terminalize ops snapshot context run_id (
            execute_open_refresh ops snapshot context run_id policy job_id started_at_ms
              (begin_refresh_run spec started_at_ms ∷ calls))
  unfolding execute_refresh
  execute-opened trigger policy job_id started_at_ms calls key spec run_id keyed specified begun =
      ap (λ k. after_job_key ops snapshot context trigger policy job_id started_at_ms k calls) keyed
      ∙ ap (λ r. after_spec ops snapshot context policy job_id started_at_ms r calls) specified
      ∙ ap
          (λ o.
            after_begin ops snapshot context policy job_id started_at_ms o
              (begin_refresh_run spec started_at_ms ∷ calls))
          begun

  -- When the job id and the app version are accepted and the store opens the run, whatever result the
  -- refresh returns, the store has been asked to complete the run with that result's outcome and
  -- time. Unless the result is a failure, the store has answered that it did.
  pub execute_refresh-IsClosed :
      (trigger : RefreshTrigger) (policy : RefreshScopePolicy) (job_id : Text) (started_at_ms : ℤ)
      (calls : History) (key : JobKey) (spec : RefreshRunSpec) (run_id : RefreshRunId)
      (result : ExecutionResult)
      → job_key_new job_id ≡ ok key
      → refresh_run_spec_new key trigger context.app_version ≡ ok spec
      → context.ports.begins_refresh (begin_refresh_run spec started_at_ms ∷ calls) ≡ some run_id
      → (execute_refresh ops snapshot context trigger policy job_id started_at_ms calls).0
        ≡ some result
      → IsClosed context.ports.succeeds run_id result
          (execute_refresh ops snapshot context trigger policy job_id started_at_ms calls).1
  execute_refresh-IsClosed trigger policy job_id started_at_ms calls key spec run_id result keyed
        specified begun e =
      let calls' : History = begin_refresh_run spec started_at_ms ∷ calls in
      let opened =
        terminalize ops snapshot context run_id
          (execute_open_refresh ops snapshot context run_id policy job_id started_at_ms calls') in
      let same : execute_refresh ops snapshot context trigger policy job_id started_at_ms calls
          ≡ opened =
        execute-opened trigger policy job_id started_at_ms calls key spec run_id keyed specified
          begun in
      subst (IsClosed context.ports.succeeds run_id result) (sym (ap (λ x. x.1) same)) (
        terminalize-Closes run_id _ result (open-Closes run_id policy job_id started_at_ms calls')
          (sym (ap (λ x. x.0) same) ∙ e))
