-- ===== src/Refresh/Planner/Scopes.antt =====
-- The days that a planned scope asks for.
use burnly.Prelude.{
  if◌then◌else◌, ℕ, ◌≤◌, ◌≡◌, ◌↔◌, refl, Bool, true, false, Option, none, some, min, arith, ap,
  Bool-cases, Option-cases, inl, inr,
}
use burnly.Domain.Source.{same_source_iff}
use burnly.Domain.Identity.{NaiveDate}
use burnly.Collection.Request.{
  CollectionScope, CollectionProjection, full, incremental, IsOrdered, scope_incremental,
  same_projection,
}
use burnly.Refresh.Planner.{
  RefreshPlanMode, catch_up, freshness, SuccessfulImportState, RefreshPlanRequest, RefreshPlan,
  RefreshPlanTarget, plan_for, plan_scope, catch_up_scope, today_scope, catch_up_lookback_days,
  scope_end_date, import_matches_target, plan, unwrap_or_date,
}

-- The days that a scope asks for.
abbrev pub Covers : CollectionScope → NaiveDate → Type 0
Covers full day = Unit
Covers (incremental range) day = (range.start_date ≤ day) × (day ≤ range.end_date)

same_projection_iff : (a b : CollectionProjection) → (same_projection a b ≡ true) ↔ (a ≡ b)
same_projection_iff CollectionProjection.daily CollectionProjection.daily = (λ h. refl, λ h. refl)
same_projection_iff CollectionProjection.session CollectionProjection.session =
    (λ h. refl, λ h. refl)
same_projection_iff CollectionProjection.daily CollectionProjection.session = (λ h. cc, λ h. cc)
same_projection_iff CollectionProjection.session CollectionProjection.daily = (λ h. cc, λ h. cc)

matches_iff :
    (target : RefreshPlanTarget) (previous : SuccessfulImportState)
    → (import_matches_target target previous ≡ true)
      ↔ ((previous.source ≡ target.source) × (previous.projection ≡ target.projection))
unfolding import_matches_target
matches_iff target previous =
    let sources = same_source_iff previous.source target.source in
    let projections = same_projection_iff previous.projection target.projection in
    (
      λ h. (sources.0 (ground arith), projections.0 (ground arith)),
      λ h. rw (sources.1 h.0, projections.1 h.1) refl,
    )

-- There is a previous import, and it is of the source and the projection of the request's target.
abbrev pub HasBaseline : RefreshPlanRequest → Type 0
HasBaseline request =
    (previous : SuccessfulImportState) × (request.previous_import ≡ some previous)
    × (previous.source ≡ request.target.source)
    × (previous.projection ≡ request.target.projection)

abbrev range_scope : NaiveDate → NaiveDate → CollectionScope
range_scope s e = incremental (record { start_date = s; end_date = e })

abbrev matches_or : RefreshPlanTarget → Option SuccessfulImportState → Bool
matches_or target none = false
matches_or target (some previous) = import_matches_target target previous

module _ (checked_sub_days : NaiveDate → ℕ → Option NaiveDate) where
  abbrev lookback_start : NaiveDate → SuccessfulImportState → NaiveDate
  lookback_start today previous =
      let base_date = unwrap_or_date (scope_end_date previous) today in
      unwrap_or_date (checked_sub_days base_date catch_up_lookback_days) base_date

  -- Neither call of `expect` fails.
  catch_up_scope-eq :
      (today : NaiveDate) (previous : SuccessfulImportState)
      → catch_up_scope checked_sub_days today previous
        ≡ some (range_scope (min (lookback_start today previous) today) today)
  unfolding catch_up_scope scope_incremental
  catch_up_scope-eq today previous = ground arith

  today_scope-eq : (today : NaiveDate) → today_scope today ≡ some (range_scope today today)
  unfolding today_scope scope_incremental
  today_scope-eq today = ground arith

  -- The scope that is planned.
  abbrev planned_by_mode : RefreshPlanMode → NaiveDate → SuccessfulImportState → CollectionScope
  planned_by_mode catch_up today previous =
      range_scope (min (lookback_start today previous) today) today
  planned_by_mode freshness today previous = range_scope today today

  abbrev planned :
      RefreshPlanTarget
      → RefreshPlanMode
      → NaiveDate
      → Option SuccessfulImportState
      → CollectionScope
  planned target mode today none = full
  planned target mode today (some previous) =
      if import_matches_target target previous then planned_by_mode mode today previous else full

  plan_scope-eq :
      (target : RefreshPlanTarget) (mode : RefreshPlanMode) (today : NaiveDate)
      (import : Option SuccessfulImportState)
      → plan_scope checked_sub_days target mode today import
        ≡ some (planned target mode today import)
  plan_scope-eq target mode today none = refl
  plan_scope-eq target catch_up today (some previous) =
      ground (arith, catch_up_scope-eq today previous)
  plan_scope-eq target freshness today (some previous) = ground (arith, today_scope-eq today)

  plan-eq :
      (request : RefreshPlanRequest)
      → plan checked_sub_days request
        ≡ some (
            plan_for request.target
              (planned request.target request.mode request.today request.previous_import))
  unfolding plan
  plan-eq request =
      ground
        (arith, plan_scope-eq request.target request.mode request.today request.previous_import)

  not_full :
      (mode : RefreshPlanMode) (today : NaiveDate) (previous : SuccessfulImportState)
      → ¬ (planned_by_mode mode today previous ≡ full)
  not_full catch_up today previous h = cc
  not_full freshness today previous h = cc

  planned-Covers :
      (target : RefreshPlanTarget) (mode : RefreshPlanMode) (today : NaiveDate)
      (import : Option SuccessfulImportState)
      → IsOrdered (planned target mode today import)
        × Covers (planned target mode today import) today
  planned-Covers target mode today none = (tt, tt)
  planned-Covers target catch_up today (some previous) = ground arith
  planned-Covers target freshness today (some previous) = ground arith

  planned_no_gap :
      (target : RefreshPlanTarget) (today : NaiveDate) (previous : SuccessfulImportState)
      (last day : NaiveDate)
      → ((d e : NaiveDate) (n : ℕ) → checked_sub_days d n ≡ some e → e ≤ d)
      → scope_end_date previous ≡ some last
      → last ≤ day
      → day ≤ today
      → Covers (planned target catch_up today (some previous)) day
  planned_no_gap target today previous last day earlier ended from to =
      elim (Option-cases (checked_sub_days last catch_up_lookback_days)) [
        | inl nothing ↦ ground arith
        | inr (e, found) ↦ ground (arith, earlier last e catch_up_lookback_days found)
      ]

  planned-full_iff :
      (target : RefreshPlanTarget) (mode : RefreshPlanMode) (today : NaiveDate)
      (import : Option SuccessfulImportState)
      → (planned target mode today import ≡ full) ↔ (
          ¬ (
            (previous : SuccessfulImportState) × (import ≡ some previous)
            × (import_matches_target target previous ≡ true)))
  planned-full_iff target mode today none = (λ h b. cc (b.1), λ h. refl)
  planned-full_iff target mode today (some previous) =
      elim (Bool-cases (import_matches_target target previous)) [
        | inl matches ↦ (
          λ h b. not_full mode today previous (rw matches at h),
          λ h. absurd (h (previous, refl, matches)),
        )
        | inr other ↦ (λ h b. cc (b.2, other, ap (λ o. matches_or target o) b.1), λ h. rw other)
      ]

module _ (checked_sub_days : NaiveDate → ℕ → Option NaiveDate) (request : RefreshPlanRequest) where
  -- Planning always returns a plan, whatever chrono's subtraction does: the two calls of `expect`
  -- never fail. The plan is for the requested target, and its scope is ordered and covers today.
  pub plan_total :
      (p : RefreshPlan) × (plan checked_sub_days request ≡ some p)
      × (p.target ≡ request.target)
      × IsOrdered p.scope
      × Covers p.scope request.today
  plan_total =
      let target = request.target in
      let covered =
        planned-Covers checked_sub_days target request.mode request.today request.previous_import in
      (
        plan_for target
            (planned checked_sub_days target request.mode request.today request.previous_import),
        plan-eq checked_sub_days request,
        refl,
        covered.0,
        covered.1,
      )

  -- The plan collects everything exactly when there is no previous import of the target's source
  -- and projection.
  pub plan-full_iff :
      (p : RefreshPlan)
      → plan checked_sub_days request ≡ some p
      → (p.scope ≡ full) ↔ (¬ HasBaseline request)
  plan-full_iff p h =
      let target = request.target in
      let q : p.scope
          ≡ planned checked_sub_days target request.mode request.today request.previous_import =
        cc (plan-eq checked_sub_days request) in
      let (only, always) =
        planned-full_iff checked_sub_days target request.mode request.today
          request.previous_import in
      rw q (
        λ h (previous, there, source, projection).
            only h (previous, there, (matches_iff target previous).1 (source, projection)),
        λ none_there. always (λ (previous, there, same).
            let (source, projection) = (matches_iff target previous).0 same in
            none_there (previous, there, source, projection)),
      )

  -- Catching up from a baseline that ended on a given day, every day from that day to today is
  -- collected, as long as subtracting days never gives a later date.
  pub catch_up-no_gap :
      ((d e : NaiveDate) (n : ℕ) → checked_sub_days d n ≡ some e → e ≤ d)
      → (p : RefreshPlan) (previous : SuccessfulImportState) (last day : NaiveDate)
      → request.mode ≡ catch_up
      → request.previous_import ≡ some previous
      → scope_end_date previous ≡ some last
      → plan checked_sub_days request ≡ some p
      → last ≤ day
      → day ≤ request.today
      → Covers p.scope day
  catch_up-no_gap earlier p previous last day mode import ended h from to =
      let q : p.scope
          ≡ planned checked_sub_days request.target catch_up request.today (some previous) =
        cc (plan-eq checked_sub_days request) in
      rw q (
        planned_no_gap checked_sub_days request.target request.today previous last day earlier ended
          from to)
