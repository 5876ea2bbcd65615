-- ===== src/Refresh/RequestPlan.antt =====
-- src-tauri/src/application/refresh/request_plan.rs.
pub mod Planned
use burnly.Prelude.{
  ℕ, Bool, true, false, ◌&&◌, ◌++◌, Option, none, some, List, [], ◌∷◌, Result, ok, err, ◌>>=◌,
  ok_or, map_err, if◌then◌else◌,
}
use burnly.Prelude.Text.{Text, text}
use burnly.Domain.Source.{SourceKey, same_source, as_str}
use burnly.Domain.Identity.{NaiveDate}
use burnly.Collection.Request.{
  CollectionProjection, CollectionScope, full, CollectionRequest, CollectionId, collection_id_new,
  daily_request, session_request, ProfileDescriptor, Instant,
}
use burnly.Refresh.Planner.{
  RefreshPlanMode, catch_up, freshness, RefreshPlan, SuccessfulImportState, plan,
}
use burnly.Refresh.Coordinator.{RefreshScopePolicy}
use burnly.Refresh.Runs.{ImportRunLookup}
use burnly.Refresh.Target.{RefreshTarget, plan_target, import_lookup, projection_label}

pub data RequestPlanError : Type 0 where
  invalid_request invalid_timezone invalid_import_state import_state_unavailable : RequestPlanError

-- `RequestPlanError::code` and `RequestPlanError::summary`
abbrev pub code : RequestPlanError → Text
code RequestPlanError.invalid_request = text "refresh.request"
code RequestPlanError.invalid_timezone = text "refresh.timezone"
code RequestPlanError.invalid_import_state = text "refresh.import_state"
code RequestPlanError.import_state_unavailable = text "refresh.import_state"

abbrev pub summary : RequestPlanError → Text
summary RequestPlanError.invalid_request = text "Refresh request is invalid."
summary RequestPlanError.invalid_timezone = text "Refresh timezone is invalid."
summary RequestPlanError.invalid_import_state = text "Refresh import state is invalid."
summary RequestPlanError.import_state_unavailable =
    text "Could not read the latest successful import state."

-- The `match` on the projection in `collection_request`.
pub request_for :
    RefreshTarget
    → CollectionId
    → CollectionScope
    → Instant
    → Text
    → Result CollectionRequest RequestPlanError
unfolding daily_request session_request
request_for target id scope requested_at timezone = elim target.projection [
  | CollectionProjection.daily ↦
      map_err (λ _. RequestPlanError.invalid_request)
        (daily_request id target.source scope timezone requested_at)
  | CollectionProjection.session ↦ ok (session_request id target.source scope requested_at)
]

unfoldable pub collection_request :
    Text
    → RefreshTarget
    → CollectionScope
    → Instant
    → Text
    → Result CollectionRequest RequestPlanError
unfolding collection_id_new request_for
collection_request job_id target scope requested_at timezone = do
  id ←
      map_err (λ _. RequestPlanError.invalid_request)
        (collection_id_new (
          job_id
          ++ text ":"
          ++ as_str target.source
          ++ text ":"
          ++ projection_label target.projection))
  request_for target id scope requested_at timezone

-- chrono's `checked_sub_days`, the local date of an instant in a named timezone (`none` when chrono-tz
-- does not know the name), and the answers of the two stores that planning reads, `none` an error.
module _ (checked_sub_days : NaiveDate → ℕ → Option NaiveDate)
    (local_date : Instant → Text → Option NaiveDate)
    (latest_successful_import : ImportRunLookup → Option (Option SuccessfulImportState))
    (requires_full_scope : Option Bool) where
  -- The scope of the planner; the outer `none` is its panic.
  pub planned_scope :
      RefreshPlanMode
      → RefreshTarget
      → ProfileDescriptor
      → Instant
      → Text
      → Option (Result CollectionScope RequestPlanError)
  unfolding import_lookup plan
  planned_scope mode target profile requested_at timezone =
      elim (local_date requested_at timezone) [
        | none ↦ some (err RequestPlanError.invalid_timezone)
        | some today ↦ elim (import_lookup target timezone profile) [
          | err _ ↦ some (err RequestPlanError.invalid_import_state)
          | ok lookup ↦ elim (latest_successful_import lookup) [
            | none ↦ some (err RequestPlanError.import_state_unavailable)
            | some previous ↦
                elim (plan checked_sub_days (record {
                  target = plan_target target timezone;
                  mode = mode;
                  today = today;
                  previous_import = previous;
                })) [ none ↦ none | some planned ↦ some (ok planned.scope) ]
          ]
        ]
      ]

  -- The repair of the Antigravity baseline asks for a full scope first.
  pub repaired_scope :
      RefreshPlanMode
      → RefreshTarget
      → ProfileDescriptor
      → Instant
      → Text
      → Option (Result CollectionScope RequestPlanError)
  unfolding same_source planned_scope
  repaired_scope mode target profile requested_at timezone =
      let rest = planned_scope mode target profile requested_at timezone in
      if same_source target.source SourceKey.antigravity
      then elim requires_full_scope [
        | none ↦ some (err RequestPlanError.import_state_unavailable)
        | some required ↦ if required then some (ok full) else rest
      ]
      else rest

  -- The `match` on the scope policy.
  pub scope_by_policy :
      RefreshScopePolicy
      → RefreshTarget
      → ProfileDescriptor
      → Instant
      → Text
      → Option (Result CollectionScope RequestPlanError)
  unfolding repaired_scope
  scope_by_policy RefreshScopePolicy.full target profile requested_at timezone = some (ok full)
  scope_by_policy RefreshScopePolicy.catch_up target profile requested_at timezone =
      repaired_scope catch_up target profile requested_at timezone
  scope_by_policy RefreshScopePolicy.freshness target profile requested_at timezone =
      repaired_scope freshness target profile requested_at timezone

  unfoldable pub planned_collection_request :
      Text
      → RefreshTarget
      → ProfileDescriptor
      → Instant
      → Text
      → RefreshScopePolicy
      → Option (Result CollectionRequest RequestPlanError)
  unfolding scope_by_policy collection_request
  planned_collection_request job_id target profile requested_at timezone policy =
      elim (scope_by_policy policy target profile requested_at timezone) [
        | none ↦ none
        | some scope ↦
            some (scope >>= λ s. collection_request job_id target s requested_at timezone)
      ]
