-- ===== src/Refresh/Target.antt =====
-- src-tauri/src/application/refresh/target.rs.
pub mod Catalog
use burnly.Prelude.{ℕ, Option, none, some, List, [], ◌∷◌, Result, length}
use burnly.Prelude.Text.{Text, text}
use burnly.Domain.Source.{SourceKey}
use burnly.Collection.Request.{CollectionProjection, ProfileDescriptor}
use burnly.Collection.Report.{CollectionResult}
use burnly.Refresh.Outcome.{clamp_count}
use burnly.Refresh.Planner.{RefreshPlanTarget, daily_target, session_target}
use burnly.Refresh.Runs.{ImportRunLookup, RunValidationError, compatible}

pub record RefreshTarget : Type 0 where
  pub source : SourceKey
  pub projection : CollectionProjection

-- `RefreshTarget::plan_target`
abbrev pub plan_target_of : CollectionProjection → SourceKey → Text → RefreshPlanTarget
plan_target_of CollectionProjection.daily source timezone = daily_target source timezone
plan_target_of CollectionProjection.session source timezone = session_target source

abbrev pub plan_target : RefreshTarget → Text → RefreshPlanTarget
plan_target target timezone = plan_target_of target.projection target.source timezone

-- `import_timezone`
abbrev pub import_timezone : CollectionProjection → Text → Option Text
import_timezone CollectionProjection.daily timezone = some timezone
import_timezone CollectionProjection.session timezone = none

-- `RefreshTarget::import_lookup`, whose `match` on the projection is that of `import_timezone`.
unfoldable pub import_lookup :
    RefreshTarget → Text → ProfileDescriptor → Result ImportRunLookup RunValidationError
unfolding compatible
import_lookup target timezone profile =
    compatible target.source target.projection (import_timezone target.projection timezone)
      profile.collector.value profile.profile_version

abbrev pub projection_label : CollectionProjection → Text
projection_label CollectionProjection.daily = text "daily"
projection_label CollectionProjection.session = text "session"

-- `records_seen`
abbrev pub candidate_count : CollectionProjection → CollectionResult → ℕ
candidate_count CollectionProjection.daily collection = length collection.daily_candidates
candidate_count CollectionProjection.session collection = length collection.session_candidates

abbrev pub records_seen : CollectionResult → ℕ
records_seen collection = clamp_count (candidate_count collection.projection collection)

abbrev target : SourceKey → CollectionProjection → RefreshTarget
target source projection = record { source = source; projection = projection }

-- `refresh_targets`
unfoldable pub refresh_targets : List RefreshTarget
refresh_targets =
    target SourceKey.claude_code CollectionProjection.daily
    ∷ target SourceKey.claude_code CollectionProjection.session
    ∷ target SourceKey.codex CollectionProjection.daily
    ∷ target SourceKey.codex CollectionProjection.session
    ∷ target SourceKey.open_code CollectionProjection.daily
    ∷ target SourceKey.open_code CollectionProjection.session
    ∷ target SourceKey.pi CollectionProjection.daily
    ∷ target SourceKey.pi CollectionProjection.session
    ∷ target SourceKey.cline CollectionProjection.daily
    ∷ target SourceKey.cline CollectionProjection.session
    ∷ target SourceKey.z_code CollectionProjection.daily
    ∷ target SourceKey.z_code CollectionProjection.session
    ∷ target SourceKey.antigravity CollectionProjection.daily
    ∷ target SourceKey.antigravity CollectionProjection.session
    ∷ target SourceKey.grok_build CollectionProjection.daily
    ∷ target SourceKey.grok_build CollectionProjection.session
    ∷ target SourceKey.command_code CollectionProjection.daily
    ∷ target SourceKey.command_code CollectionProjection.session
    ∷ target SourceKey.deep_seek_harness CollectionProjection.daily
    ∷ target SourceKey.deep_seek_harness CollectionProjection.session
    ∷ target SourceKey.zed CollectionProjection.daily
    ∷ target SourceKey.zed CollectionProjection.session
    ∷ []
