-- ===== src/Refresh/Planner.antt =====
-- src-tauri/src/application/refresh/planner.rs, with the import state of
-- src-tauri/src/application/reconciliation/run.rs.
pub mod Scopes
use burnly.Prelude.{ℕ, Bool, ◌&&◌, Option, none, some, Result, ok, err, if◌then◌else◌, min}
use burnly.Prelude.Text.{Text}
use burnly.Prelude.Int.{ℤ}
use burnly.Domain.Source.{SourceKey, same_source}
use burnly.Domain.Identity.{NaiveDate}
use burnly.Collection.Request.{
  CollectionProjection, CollectionScope, full, incremental, scope_incremental, same_projection,
  RequestValidationError,
}

abbrev pub catch_up_lookback_days : ℕ
catch_up_lookback_days = 2

pub data RefreshPlanMode : Type 0 where
  catch_up freshness : RefreshPlanMode

pub record RefreshPlanTarget : Type 0 where
  pub source : SourceKey
  pub projection : CollectionProjection
  pub aggregation_timezone : Option Text

-- `RefreshPlanTarget::daily` and `RefreshPlanTarget::session`
abbrev pub daily_target : SourceKey → Text → RefreshPlanTarget
daily_target source timezone = record {
  source = source;
  projection = CollectionProjection.daily;
  aggregation_timezone = some timezone;
}

abbrev pub session_target : SourceKey → RefreshPlanTarget
session_target source = record {
  source = source;
  projection = CollectionProjection.session;
  aggregation_timezone = none;
}

pub record SuccessfulImportState : Type 0 where
  pub source : SourceKey
  pub projection : CollectionProjection
  pub scope : CollectionScope
  pub finished_at_ms : ℤ

-- `SuccessfulImportState::scope_end_date`
abbrev pub scope_end_date : SuccessfulImportState → Option NaiveDate
scope_end_date state = elim state.scope [ full ↦ none | incremental range ↦ some range.end_date ]

pub record RefreshPlanRequest : Type 0 where
  pub target : RefreshPlanTarget
  pub mode : RefreshPlanMode
  pub today : NaiveDate
  pub previous_import : Option SuccessfulImportState

pub record RefreshPlan : Type 0 where
  pub target : RefreshPlanTarget
  pub scope : CollectionScope

pub import_matches_target : RefreshPlanTarget → SuccessfulImportState → Bool
unfolding same_source
import_matches_target target previous =
    same_source previous.source target.source
    && same_projection previous.projection target.projection

abbrev pub unwrap_or_date : Option NaiveDate → NaiveDate → NaiveDate
unwrap_or_date none d = d
unwrap_or_date (some e) d = e

-- `.expect(...)`: `none` is a panic.
abbrev pub expect : Result CollectionScope RequestValidationError → Option CollectionScope
expect (ok scope) = some scope
expect (err _) = none

-- `today_scope`
pub today_scope : NaiveDate → Option CollectionScope
unfolding scope_incremental
today_scope today = expect (scope_incremental today today)

abbrev pub plan_for : RefreshPlanTarget → CollectionScope → RefreshPlan
plan_for target scope = record { target = target; scope = scope }

-- chrono's `checked_sub_days`, `none` where the day before is not representable.
module _ (checked_sub_days : NaiveDate → ℕ → Option NaiveDate) where
  pub catch_up_scope : NaiveDate → SuccessfulImportState → Option CollectionScope
  unfolding scope_incremental
  catch_up_scope today previous =
      let base_date = unwrap_or_date (scope_end_date previous) today in
      let lookback_start =
        unwrap_or_date (checked_sub_days base_date catch_up_lookback_days) base_date in
      expect (scope_incremental (min lookback_start today) today)

  abbrev pub scope_by_mode :
      RefreshPlanMode → NaiveDate → SuccessfulImportState → Option CollectionScope
  scope_by_mode catch_up today previous = catch_up_scope today previous
  scope_by_mode freshness today previous = today_scope today

  -- The `match` on the previous import.
  abbrev pub plan_scope :
      RefreshPlanTarget
      → RefreshPlanMode
      → NaiveDate
      → Option SuccessfulImportState
      → Option CollectionScope
  plan_scope target mode today none = some full
  plan_scope target mode today (some previous) =
      if import_matches_target target previous then scope_by_mode mode today previous else some full

  -- `RefreshPolicyPlanner::plan`
  unfoldable pub plan : RefreshPlanRequest → Option RefreshPlan
  unfolding import_matches_target today_scope catch_up_scope
  plan request =
      elim (plan_scope request.target request.mode request.today request.previous_import) [
        | none ↦ none
        | some scope ↦ some (plan_for request.target scope)
      ]
