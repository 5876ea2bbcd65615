-- ===== src/Refresh/Execution/Run/Totality.antt =====
-- How the functions of the worker end.
use burnly.Prelude.{
  Bool, true, false, Option, none, some, ◌∷◌, Result, ok, err, if◌then◌else◌, inl, inr,
}
use burnly.Prelude.Text.{Text}
use burnly.Prelude.Int.{ℤ}
use burnly.Collection.Request.{CollectionRequest, ProfileDescriptor, Instant}
use burnly.Collection.Report.{CollectionResult}
use burnly.Pricing.Float.{FloatOps}
use burnly.Pricing.Snapshot.{PricingSnapshot}
use burnly.Refresh.Coordinator.{RefreshScopePolicy}
use burnly.Refresh.Runs.{RefreshRunId, SourceId, ImportRunId}
use burnly.Refresh.RequestPlan.{RequestPlanError}
use burnly.Refresh.RequestPlan.Planned.{planned_request-cases, projection-cases}
use burnly.Refresh.Target.{RefreshTarget}
use burnly.Refresh.Execution.Ports.{
  return, Call, History, RefreshExecution, Abort, failed, panicked, Exec, continue, ◌>>=◌,
}
use burnly.Refresh.Execution.{
  or_fail, ask, persist, reconcile_collection, complete_import, reconcile_days, reconcile_sessions,
}
use burnly.Refresh.Execution.Round.{planned, request_or_fail}

-- A result that is no panic, and with a property when it is no error.
unfoldable pub Ends : {A : Type 0} → (A → Type 0) → Result A Abort × History → Type 0
Ends P (ok a, calls) = P a
Ends P (err (failed failure), calls) = Unit
Ends P (err panicked, calls) = ⊥

continue-Ends :
    {A B : Type 0} (P : A → Type 0) (Q : B → Type 0) (m : Result A Abort × History) (f : A → Exec B)
    → Ends P m
    → ((a : A) (calls : History) → P a → Ends Q (f a calls))
    → Ends Q (continue m f)
unfolding Ends
continue-Ends P Q (ok a, calls) f h k = k a calls h
continue-Ends P Q (err (failed failure), calls) f h k = tt
continue-Ends P Q (err panicked, calls) f h k = absurd h

pub bind-Ends :
    {A B : Type 0} (P : A → Type 0) (Q : B → Type 0) (m : Exec A) (f : A → Exec B) (calls : History)
    → Ends P (m calls)
    → ((a : A) (calls' : History) → P a → Ends Q (f a calls'))
    → Ends Q ((m >>= f) calls)
unfolding ◌>>=◌
bind-Ends P Q m f calls h k = continue-Ends P Q (m calls) f h k

pub if-Ends :
    {A : Type 0} (P : A → Type 0) (b : Bool) (x y : Result A Abort × History)
    → Ends P x
    → Ends P y
    → Ends P (if b then x else y)
unfolding Ends
if-Ends P true x y h k = h
if-Ends P false x y h k = k

pub return-Ends :
    {A : Type 0} (P : A → Type 0) (a : A) (calls : History) → P a → Ends P (return a calls)
unfolding Ends
return-Ends P a calls h = h

-- No condition.
abbrev pub Always : {A : Type 0} → A → Type 0
Always a = Unit

module _ (context : RefreshExecution) where
  open context use {ports}

  pub or_fail-Ends :
      {A : Type 0} (o : Option A) (c s : Text) (calls : History)
      → Ends Always (or_fail context o c s calls)
  unfolding Ends or_fail
  or_fail-Ends (some a) c s calls = tt
  or_fail-Ends none c s calls = tt

  request_or_fail-Ends :
      (ops : FloatOps) (snapshot : PricingSnapshot (FloatOps.F64 ops))
      (r : Result CollectionRequest RequestPlanError) (calls : History)
      → Ends Always (request_or_fail ops snapshot context (some r) calls)
  unfolding Ends
  request_or_fail-Ends ops snapshot (ok request) calls = tt
  request_or_fail-Ends ops snapshot (err e) calls = tt

module _ (ops : FloatOps) (snapshot : PricingSnapshot (FloatOps.F64 ops))
    (context : RefreshExecution) where
  open context use {ports, aggregation_timezone}

  complete_import-Ends :
      (id : ImportRunId) (collection : CollectionResult) (reconciled : Bool) (calls : History)
      → Ends Always (complete_import ops snapshot context id collection reconciled calls)
  unfolding Ends complete_import
  complete_import-Ends id collection true calls = if-Ends Always (ports.succeeds _) _ _ tt tt
  complete_import-Ends id collection false calls = tt

  reconcile_collection-Ends :
      (source_id : SourceId) (id : ImportRunId) (now_ms : ℤ) (collection : CollectionResult)
      (calls : History)
      → Ends Always (reconcile_collection ops snapshot context source_id id now_ms collection calls)
  unfolding Ends reconcile_collection reconcile_days reconcile_sessions
  reconcile_collection-Ends source_id id now_ms collection calls =
      elim (projection-cases collection.projection) [
        | inl daily ↦ rw daily (if-Ends Always (ports.succeeds _) _ _ tt tt)
        | inr session ↦ rw session tt
      ]

  pub ask-Ends :
      {A : Type 0} (call : Call) (answer : History → Option A) (c s : Text) (calls : History)
      → Ends Always (ask context call answer c s calls)
  unfolding ask
  ask-Ends call answer c s calls = or_fail-Ends context (answer (call ∷ calls)) c s (call ∷ calls)

  -- Neither does saving a collection panic.
  pub persist-Ends :
      (run_id : RefreshRunId) (source_id : SourceId) (now_ms : ℤ) (collection : CollectionResult)
      (calls : History)
      → Ends Always (persist ops snapshot context run_id source_id now_ms collection calls)
  unfolding persist
  persist-Ends run_id source_id now_ms collection calls =
      bind-Ends Always Always _ _ _ (or_fail-Ends context _ _ _ _) (λ collector calls' _.
        bind-Ends Always Always _ _ _ (or_fail-Ends context _ _ _ _) (λ spec calls' _.
          bind-Ends Always Always _ _ _ (ask-Ends _ _ _ _ _) (λ id calls' _.
            bind-Ends Always Always _ _ _
              (reconcile_collection-Ends source_id id now_ms collection calls')
              (λ reconciled calls' _. complete_import-Ends id collection reconciled calls'))))

  pub planned-Ends :
      (job_id : Text) (target : RefreshTarget) (profile : ProfileDescriptor)
      (requested_at : Instant) (policy : RefreshScopePolicy) (calls : History)
      → Ends Always (planned ops snapshot context job_id target profile requested_at policy calls)
  unfolding planned
  planned-Ends job_id target profile requested_at policy calls =
      let (r, made, good) =
        planned_request-cases ports.checked_sub_days ports.local_date
          (ports.latest_successful_import calls) (ports.requires_full_scope calls) target profile
          requested_at aggregation_timezone job_id policy in
      rw made (request_or_fail-Ends context ops snapshot r calls)
