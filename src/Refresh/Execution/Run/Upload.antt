-- ===== src/Refresh/Execution/Run/Upload.antt =====
-- What the loop over the targets records, and what is handed to the upload of daily usage.
use burnly.Prelude.{
  ◌≡◌, ◌≢◌, refl, ap, ◌∙◌, true, some, List, [], ◌∷◌, ◌++◌, map, All, All-append, In, arith, inl,
  inr,
}
use burnly.Prelude.Int.{ℤ}
use burnly.Refresh.Coordinator.{RefreshScopePolicy}
use burnly.Refresh.Target.{RefreshTarget}
use burnly.CollectSync.Scope.{CommittedDailyTarget, CommittedDailyUpload}
use burnly.Refresh.Execution.Ports.{RefreshExecution, TargetRunOutcome, TargetExecutionOutcome}
use burnly.Refresh.Execution.{start_progress, committed_daily_target}

-- The target of a recorded outcome.
abbrev pub target_of : TargetExecutionOutcome → RefreshTarget
target_of o = record { source = o.source; projection = o.projection }

abbrev pub HasSucceeded : TargetExecutionOutcome → Type 0
HasSucceeded o = o.outcome ≡ TargetRunOutcome.succeeded

module _ (context : RefreshExecution) where
  -- A range to upload comes from the outcome of a target that did not fail.
  abbrev pub IsFrom : List TargetExecutionOutcome → CommittedDailyTarget → Type 0
  IsFrom outcomes target =
      (o : TargetExecutionOutcome) × In o outcomes
      × (o.outcome ≢ TargetRunOutcome.failed)
      × (committed_daily_target context o.source o.effective_scope ≡ some target)

  -- What holds of the outcomes and of the upload once some targets are done: each target has its outcome,
  -- in order; the upload counts as a complete history only under the full policy and when every target
  -- has succeeded; and it covers only what a target has committed.
  pub record Tracks (policy : RefreshScopePolicy) (done : List RefreshTarget)
      (outcomes : List TargetExecutionOutcome) (upload : CommittedDailyUpload) : Type 0 where
    pub each_recorded : map target_of outcomes ≡ done
    pub complete_if :
        upload.full_refresh_complete ≡ true
        → (policy ≡ RefreshScopePolicy.full) × All HasSucceeded outcomes
    pub committed : All (IsFrom outcomes) upload.targets

  pub start-Tracks :
      (policy : RefreshScopePolicy) (started_at_ms : ℤ)
      → Tracks policy [] [] (start_progress policy started_at_ms).upload
  start-Tracks RefreshScopePolicy.full started_at_ms = record {
    each_recorded = refl;
    complete_if = λ h. (refl, tt);
    committed = tt;
  }
  start-Tracks RefreshScopePolicy.catch_up started_at_ms = record {
    each_recorded = refl;
    complete_if = λ h. absurd (ground arith);
    committed = tt;
  }
  start-Tracks RefreshScopePolicy.freshness started_at_ms = record {
    each_recorded = refl;
    complete_if = λ h. absurd (ground arith);
    committed = tt;
  }

  map-append :
      (xs : List TargetExecutionOutcome) (y : TargetExecutionOutcome)
      → map target_of (xs ++ y ∷ []) ≡ map target_of xs ++ target_of y ∷ []
  map-append [] y = refl
  map-append (x ∷ xs) y = ap (λ zs. target_of x ∷ zs) (map-append xs y)

  In-left :
      (o : TargetExecutionOutcome) (xs ys : List TargetExecutionOutcome) → In o xs → In o (xs ++ ys)
  In-left o (x ∷ xs) ys (inl e) = inl e
  In-left o (x ∷ xs) ys (inr i) = inr (In-left o xs ys i)
  In-left o [] ys i = absurd i

  pub In-last :
      (o : TargetExecutionOutcome) (xs : List TargetExecutionOutcome) → In o (xs ++ o ∷ [])
  In-last o [] = inl refl
  In-last o (x ∷ xs) = inr (In-last o xs)

  pub IsFrom-left :
      (xs : List TargetExecutionOutcome) (y : TargetExecutionOutcome)
      (targets : List CommittedDailyTarget)
      → All (IsFrom xs) targets
      → All (IsFrom (xs ++ y ∷ [])) targets
  IsFrom-left xs y [] h = tt
  IsFrom-left xs y (t ∷ targets) h =
      let (o, i, kept, made) = h.0 in
      ((o, In-left o xs (y ∷ []) i, kept, made), IsFrom-left xs y targets h.1)

  -- One more target, whose outcome may end the complete history and may add a range.
  pub extend-Tracks :
      (policy : RefreshScopePolicy) (done : List RefreshTarget)
      (outcomes : List TargetExecutionOutcome) (upload upload' : CommittedDailyUpload)
      (o : TargetExecutionOutcome)
      → Tracks policy done outcomes upload
      → (upload'.full_refresh_complete ≡ true
          → (upload.full_refresh_complete ≡ true) × HasSucceeded o)
      → All (IsFrom (outcomes ++ o ∷ [])) upload'.targets
      → Tracks policy (done ++ target_of o ∷ []) (outcomes ++ o ∷ []) upload'
  extend-Tracks policy done outcomes upload upload' o tracks complete from = record {
    each_recorded = map-append outcomes o ∙ ap (λ ts. ts ++ target_of o ∷ []) tracks.each_recorded;
    complete_if = λ h.
        let (before, succeeded) = complete h in
        let (full, all) = tracks.complete_if before in
        (full, All-append HasSucceeded outcomes (o ∷ []) all (succeeded, tt));
    committed = from;
  }
