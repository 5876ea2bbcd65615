-- ===== src/Refresh/RequestPlan/Planned.antt =====
-- What the request of a target asks for.
use mathlib.Core.Path.{subst}
use burnly.Prelude.{
  ◌++◌, sym, ℕ, ◌≡◌, refl, Bool, true, false, Option, none, some, Result, ok, err, arith,
  Option-cases, Result-cases, Bool-cases, ◌⊎◌, inl, inr,
}
use burnly.Prelude.Text.{Text, text, is_blank}
use burnly.Domain.Source.{SourceKey, same_source, as_str}
use burnly.Domain.Identity.{NaiveDate}
use burnly.Collection.Request.{
  CollectionProjection, CollectionScope, full, CollectionRequest, ProfileDescriptor, Instant,
  IsOrdered, collection_id_new, daily_request, session_request,
}
use burnly.Refresh.Planner.{RefreshPlanMode, catch_up, freshness, SuccessfulImportState}
use burnly.Refresh.Planner.Scopes.{plan_total}
use burnly.Refresh.Coordinator.{RefreshScopePolicy}
use burnly.Refresh.Runs.{ImportRunLookup}
use burnly.Refresh.Target.{projection_label, RefreshTarget, plan_target, import_lookup}
use burnly.Refresh.RequestPlan.{
  RequestPlanError, planned_collection_request, planned_scope, repaired_scope, scope_by_policy,
  collection_request, request_for,
}

pub projection-cases :
    (p : CollectionProjection)
    → (p ≡ CollectionProjection.daily) ⊎ (p ≡ CollectionProjection.session)
projection-cases CollectionProjection.daily = inl refl
projection-cases CollectionProjection.session = inr refl

module _ (checked_sub_days : NaiveDate → ℕ → Option NaiveDate)
    (local_date : Instant → Text → Option NaiveDate)
    (latest_successful_import : ImportRunLookup → Option (Option SuccessfulImportState))
    (requires_full_scope : Option Bool) (target : RefreshTarget) (profile : ProfileDescriptor)
    (requested_at : Instant) (timezone : Text) where
  -- A scope that planning found, in order, or an error.
  abbrev IsPlanned : Option (Result CollectionScope RequestPlanError) → Type 0
  IsPlanned none = ⊥
  IsPlanned (some (err e)) = Unit
  IsPlanned (some (ok scope)) = IsOrdered scope

  -- What planning computes is a scope in order or an error.
  planned_scope-cases :
      (mode : RefreshPlanMode)
      → (r : Result CollectionScope RequestPlanError) × (planned_scope checked_sub_days local_date
            latest_successful_import requires_full_scope mode target profile requested_at timezone
          ≡ some r)
        × IsPlanned (some r)
  unfolding planned_scope
  planned_scope-cases mode = elim (Option-cases (local_date requested_at timezone)) [
    | inl unknown ↦ (err RequestPlanError.invalid_timezone, ground arith, tt)
    | inr (today, known) ↦ elim (Result-cases (import_lookup target timezone profile)) [
      | inr (e, invalid) ↦ (err RequestPlanError.invalid_import_state, ground arith, tt)
      | inl (lookup, valid) ↦ elim (Option-cases (latest_successful_import lookup)) [
        | inl unavailable ↦ (err RequestPlanError.import_state_unavailable, ground arith, tt)
        | inr (previous, found) ↦
            let (p, made, same, ordered, covers) = plan_total checked_sub_days (record {
              target = plan_target target timezone;
              mode = mode;
              today = today;
              previous_import = previous;
            }) in
            (ok p.scope, ground arith, ordered)
      ]
    ]
  ]

  -- With a repair of the Antigravity baseline pending, everything is collected.
  repaired_scope-cases :
      (mode : RefreshPlanMode)
      → (r : Result CollectionScope RequestPlanError) × (repaired_scope checked_sub_days local_date
            latest_successful_import requires_full_scope mode target profile requested_at timezone
          ≡ some r)
        × IsPlanned (some r)
        × (same_source target.source SourceKey.antigravity ≡ true
            → requires_full_scope ≡ some true
            → r ≡ ok full)
  unfolding repaired_scope
  repaired_scope-cases mode =
      let (r, made, good) = planned_scope-cases mode in
      elim (Bool-cases (same_source target.source SourceKey.antigravity)) [
        | inr other ↦ (r, ground arith, good, λ h k. absurd (ground arith))
        | inl repairable ↦ elim (Option-cases requires_full_scope) [
          | inl unavailable ↦ (
            err RequestPlanError.import_state_unavailable,
            ground arith,
            tt,
            λ h k. absurd (ground arith),
          )
          | inr (true, required) ↦ (ok full, ground arith, tt, λ h k. refl)
          | inr (false, required) ↦ (r, ground arith, good, λ h k. absurd (ground arith))
        ]
      ]

  -- A scope that the policy and the repair allow.
  abbrev pub IsAllowed : RefreshScopePolicy → CollectionScope → Type 0
  IsAllowed policy scope =
      IsOrdered scope
      × (policy ≡ RefreshScopePolicy.full → scope ≡ full)
      × (same_source target.source SourceKey.antigravity ≡ true
          → requires_full_scope ≡ some true
          → scope ≡ full)

  scope_by_policy-cases :
      (policy : RefreshScopePolicy)
      → (r : Result CollectionScope RequestPlanError) × (scope_by_policy checked_sub_days local_date
            latest_successful_import requires_full_scope policy target profile requested_at timezone
          ≡ some r)
        × ((scope : CollectionScope) → r ≡ ok scope → IsAllowed policy scope)
  unfolding scope_by_policy
  scope_by_policy-cases RefreshScopePolicy.full = (
    ok full,
    refl,
    λ scope h.
        let same : full ≡ scope = ground arith in
        (subst IsOrdered same tt, λ p. sym same, λ p q. sym same),
  )
  scope_by_policy-cases RefreshScopePolicy.catch_up =
      let (r, made, good, repaired) = repaired_scope-cases catch_up in
      (
        r,
        made,
        λ scope h. (
          subst (λ x. IsPlanned (some x)) h good,
          λ p. absurd (ground arith),
          λ p q. ground (arith, repaired p q),
        ),
      )
  scope_by_policy-cases RefreshScopePolicy.freshness =
      let (r, made, good, repaired) = repaired_scope-cases freshness in
      (
        r,
        made,
        λ scope h. (
          subst (λ x. IsPlanned (some x)) h good,
          λ p. absurd (ground arith),
          λ p q. ground (arith, repaired p q),
        ),
      )

  request_for-cases :
      (job_id : Text) (scope : CollectionScope) (request : CollectionRequest)
      → collection_request job_id target scope requested_at timezone ≡ ok request
      → (request.source ≡ target.source)
        × (request.projection ≡ target.projection)
        × (request.scope ≡ scope)
  unfolding collection_request request_for collection_id_new daily_request session_request
  request_for-cases job_id scope request h = elim (projection-cases target.projection) [
    | inl daily ↦
        elim (Result-cases (
          collection_id_new (
            job_id
            ++ text ":"
            ++ as_str target.source
            ++ text ":"
            ++ projection_label target.projection))) [
              | inr (e, invalid) ↦ absurd (ground arith)
              | inl (id, valid) ↦ elim (Bool-cases (is_blank timezone)) [
                | inl blank ↦ absurd (ground arith)
                | inr named ↦ ground arith
              ]
            ]
    | inr session ↦
        elim (Result-cases (
          collection_id_new (
            job_id
            ++ text ":"
            ++ as_str target.source
            ++ text ":"
            ++ projection_label target.projection))) [
              | inr (e, invalid) ↦ absurd (ground arith)
              | inl (id, valid) ↦ ground arith
            ]
  ]

  -- Planning the request of a target returns a request or an error, and never panics. A request is for
  -- the target's source and projection, its scope is in order, and the scope is everything under the
  -- full policy and, for Antigravity, while a repair of its baseline is pending.
  pub planned_request-cases :
      (job_id : Text) (policy : RefreshScopePolicy)
      → (r : Result CollectionRequest RequestPlanError) × (planned_collection_request
            checked_sub_days local_date latest_successful_import requires_full_scope job_id target
            profile requested_at timezone policy
          ≡ some r)
        × ((request : CollectionRequest)
            → r ≡ ok request
            → (request.source ≡ target.source)
              × (request.projection ≡ target.projection)
              × IsAllowed policy request.scope)
  unfolding planned_collection_request
  planned_request-cases job_id policy =
      let (r, made, good) = scope_by_policy-cases policy in
      elim (Result-cases r) [
        | inr (e, failed) ↦ (err e, ground arith, λ request h. absurd (ground arith))
        | inl (scope, found) ↦ (
          collection_request job_id target scope requested_at timezone,
          ground arith,
          λ request h.
              let (source, projection, same) = request_for-cases job_id scope request h in
              (source, projection, subst (IsAllowed policy) (sym same) (good scope found)),
        )
      ]
