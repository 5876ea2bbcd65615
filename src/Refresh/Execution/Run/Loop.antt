-- ===== src/Refresh/Execution/Run/Loop.antt =====
-- The loop over the targets, one round after the other.
use mathlib.Core.Path.{subst}
use burnly.Prelude.{
  ◌≡◌, ◌≢◌, refl, sym, ap, Bool, true, false, Option, none, some, List, [], ◌∷◌, ◌++◌, All,
  All-append, Result, ok, err, arith, if◌then◌else◌,
}
use burnly.Prelude.Text.{Text}
use burnly.Prelude.Int.{ℤ}
use burnly.Collection.Request.{CollectionProjection, CollectionRequest, ProfileDescriptor, Instant}
use burnly.Collection.Report.{CollectionResult}
use burnly.Pricing.Float.{FloatOps}
use burnly.Pricing.Snapshot.{PricingSnapshot}
use burnly.Refresh.Outcome.{RunOutcome}
use burnly.Refresh.Coordinator.{RefreshScopePolicy}
use burnly.Refresh.Runs.{RefreshRunId, SourceId}
use burnly.Refresh.Target.{RefreshTarget}
use burnly.CollectSync.Scope.{CommittedDailyTarget}
use burnly.Refresh.Execution.Ports.{
  return, CollectorFailure, History, RefreshExecution, ExecutionResult, TargetRunOutcome,
  TargetExecutionOutcome, Abort, failed, panicked, return,
}
use burnly.Refresh.Execution.{Progress, is_succeeded, target_run_outcome, committed_daily_target}
use burnly.Refresh.Execution.Round.{
  one_target, after_collect, collection_failed, after_persist, persisted, target_outcome,
  append_target, is_committed, collected,
}
use burnly.Refresh.Execution.Run.{all_targets}
use burnly.Refresh.Execution.Run.Totality.{
  return-Ends, ask-Ends, Ends, Always, bind-Ends, or_fail-Ends, persist-Ends, planned-Ends,
}
use burnly.Refresh.Execution.Run.Upload.{IsFrom, Tracks, IsFrom-left, In-last, extend-Tracks}

module _ (ops : FloatOps) (snapshot : PricingSnapshot (FloatOps.F64 ops))
    (context : RefreshExecution) where
  abbrev pub Tracked : RefreshScopePolicy → List RefreshTarget → Progress → Type 0
  Tracked policy done progress = Tracks context policy done progress.target_outcomes progress.upload

  -- The range that a target adds comes from its outcome.
  appended-IsFrom :
      (outcomes : List TargetExecutionOutcome) (o : TargetExecutionOutcome)
      (targets : List CommittedDailyTarget) (added : Option CommittedDailyTarget)
      → All (IsFrom context outcomes) targets
      → o.outcome ≢ TargetRunOutcome.failed
      → committed_daily_target context o.source o.effective_scope ≡ added
      → All (IsFrom context (outcomes ++ o ∷ [])) (append_target added targets)
  appended-IsFrom outcomes o targets none h kept made = IsFrom-left context outcomes o targets h
  appended-IsFrom outcomes o targets (some target) h kept made =
      All-append (IsFrom context (outcomes ++ o ∷ [])) targets (target ∷ [])
        (IsFrom-left context outcomes o targets h) ((o, In-last context o outcomes, kept, made), tt)

  failed_round :
      (policy : RefreshScopePolicy) (done : List RefreshTarget) (target : RefreshTarget)
      (request : CollectionRequest) (failure : CollectorFailure) (progress : Progress)
      (calls : History)
      → Tracked policy done progress
      → Ends
          (Tracked policy (done ++ target ∷ []))
          (collection_failed ops snapshot context target request failure progress calls)
  unfolding Ends
  failed_round policy done target request failure progress calls tracks =
      extend-Tracks context policy done progress.target_outcomes progress.upload _ _ tracks
        (λ h. absurd (ground arith))
        (IsFrom-left context progress.target_outcomes _ progress.upload.targets tracks.committed)

  kept_complete :
      (r : RunOutcome) (b : Bool)
      → (if is_succeeded r then b else false) ≡ true
      → (b ≡ true) × (target_run_outcome r ≡ TargetRunOutcome.succeeded)
  kept_complete RunOutcome.succeeded b h = (h, refl)
  kept_complete RunOutcome.partial b h = absurd (ground arith)
  kept_complete RunOutcome.failed b h = absurd (ground arith)

  added-IsFrom :
      (r : RunOutcome) (p : CollectionProjection) (outcomes : List TargetExecutionOutcome)
      (o : TargetExecutionOutcome) (targets : List CommittedDailyTarget)
      → All (IsFrom context outcomes) targets
      → o.outcome ≡ target_run_outcome r
      → All (IsFrom context (outcomes ++ o ∷ [])) (
          if is_committed r p
          then append_target (committed_daily_target context o.source o.effective_scope) targets
          else targets)
  added-IsFrom RunOutcome.succeeded CollectionProjection.daily outcomes o targets h e =
      appended-IsFrom outcomes o targets _ h (λ f. absurd (ground arith)) refl
  added-IsFrom RunOutcome.partial CollectionProjection.daily outcomes o targets h e =
      appended-IsFrom outcomes o targets _ h (λ f. absurd (ground arith)) refl
  added-IsFrom RunOutcome.failed CollectionProjection.daily outcomes o targets h e =
      IsFrom-left context outcomes o targets h
  added-IsFrom RunOutcome.succeeded CollectionProjection.session outcomes o targets h e =
      IsFrom-left context outcomes o targets h
  added-IsFrom RunOutcome.partial CollectionProjection.session outcomes o targets h e =
      IsFrom-left context outcomes o targets h
  added-IsFrom RunOutcome.failed CollectionProjection.session outcomes o targets h e =
      IsFrom-left context outcomes o targets h

  persisted_round :
      (policy : RefreshScopePolicy) (done : List RefreshTarget) (target : RefreshTarget)
      (collection : CollectionResult) (result : ExecutionResult) (progress : Progress)
      → Tracked policy done progress
      → Tracked policy
          (done ++ target ∷ [])
          (persisted ops snapshot context target collection result progress)
  persisted_round policy done target collection result progress tracks =
      let o =
        target_outcome ops snapshot context target collection (target_run_outcome result.outcome) in
      extend-Tracks context policy done progress.target_outcomes progress.upload _ o tracks
        (kept_complete result.outcome progress.upload.full_refresh_complete)
        (added-IsFrom result.outcome collection.projection progress.target_outcomes o
          progress.upload.targets tracks.committed refl)

  after_persist-Ends :
      (policy : RefreshScopePolicy) (done : List RefreshTarget) (target : RefreshTarget)
      (collection : CollectionResult) (progress : Progress)
      (m : Result ExecutionResult Abort × History)
      → Tracked policy done progress
      → Ends Always m
      → Ends
          (Tracked policy (done ++ target ∷ []))
          (after_persist ops snapshot context target collection progress m)
  unfolding Ends
  after_persist-Ends policy done target collection progress (ok result, calls) tracks h =
      persisted_round policy done target collection result progress tracks
  after_persist-Ends policy done target collection progress (err (failed failure), calls) tracks h =
      tt
  after_persist-Ends policy done target collection progress (err panicked, calls) tracks h =
      absurd h

  after_collect-Ends :
      (run_id : RefreshRunId) (source_id : SourceId) (started_at_ms : ℤ)
      (policy : RefreshScopePolicy) (done : List RefreshTarget) (target : RefreshTarget)
      (request : CollectionRequest) (progress : Progress)
      (answer : Result CollectionResult CollectorFailure) (calls : History)
      → Tracked policy done progress
      → Ends (Tracked policy (done ++ target ∷ [])) (
          after_collect ops snapshot context run_id source_id started_at_ms target request progress
            answer calls)
  unfolding after_collect
  after_collect-Ends run_id source_id started_at_ms policy done target request progress
        (err failure) calls tracks =
      failed_round policy done target request failure progress calls tracks
  after_collect-Ends run_id source_id started_at_ms policy done target request progress
        (ok collection) calls tracks =
      after_persist-Ends policy done target collection progress _ tracks
        (persist-Ends ops snapshot context run_id source_id started_at_ms collection calls)

  collected-Ends :
      (request : CollectionRequest) (calls : History)
      → Ends Always (collected ops snapshot context request calls)
  unfolding Ends
  collected-Ends request calls = tt

  module _ (run_id : RefreshRunId) (policy : RefreshScopePolicy) (job_id : Text) (started_at_ms : ℤ)
      (requested_at : Instant) (profiles : List ProfileDescriptor) where
    one_target-Ends :
        (done : List RefreshTarget) (target : RefreshTarget) (progress : Progress) (calls : History)
        → Tracked policy done progress
        → Ends (Tracked policy (done ++ target ∷ [])) (
            one_target ops snapshot context run_id policy job_id started_at_ms requested_at profiles
              target progress calls)
    unfolding one_target
    one_target-Ends done target progress calls tracks =
        bind-Ends Always _ _ _ _ (or_fail-Ends context _ _ _ _) (λ profile calls' _.
          bind-Ends Always _ _ _ _ (ask-Ends ops snapshot context _ _ _ _ _) (λ source_id calls' _.
            bind-Ends Always _ _ _ _
              (planned-Ends ops snapshot context job_id target profile requested_at policy calls')
              (λ request calls' _.
                bind-Ends Always _ _ _ _ (collected-Ends request calls') (λ answer calls' _.
                  after_collect-Ends run_id source_id started_at_ms policy done target request
                    progress answer calls' tracks))))

    append_assoc :
        (xs : List RefreshTarget) (y : RefreshTarget) (ys : List RefreshTarget)
        → (xs ++ y ∷ []) ++ ys ≡ xs ++ y ∷ ys
    append_assoc [] y ys = refl
    append_assoc (x ∷ xs) y ys = ap (λ zs. x ∷ zs) (append_assoc xs y ys)

    append-empty : (xs : List RefreshTarget) → xs ++ [] ≡ xs
    append-empty [] = refl
    append-empty (x ∷ xs) = ap (λ zs. x ∷ zs) (append-empty xs)

    -- The loop does not panic, and it keeps track of every target.
    pub all_targets-Ends :
        (done targets : List RefreshTarget) (progress : Progress) (calls : History)
        → Tracked policy done progress
        → Ends (Tracked policy (done ++ targets)) (
            all_targets ops snapshot context run_id policy job_id started_at_ms requested_at
              profiles targets progress calls)
    unfolding all_targets
    all_targets-Ends done [] progress calls tracks =
        subst (λ ts. Ends (Tracked policy ts) (return progress calls)) (sym (append-empty done))
          (return-Ends (Tracked policy done) progress calls tracks)
    all_targets-Ends done (target ∷ targets) progress calls tracks =
        bind-Ends (Tracked policy (done ++ target ∷ [])) _ _ _ _
          (one_target-Ends done target progress calls tracks)
          (λ progress' calls' tracks'.
            subst
              (λ ts. Ends (Tracked policy ts) (
                all_targets ops snapshot context run_id policy job_id started_at_ms requested_at
                  profiles targets progress' calls'))
              (append_assoc done target targets)
              (all_targets-Ends (done ++ target ∷ []) targets progress' calls' tracks'))
