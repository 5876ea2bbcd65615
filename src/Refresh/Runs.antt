-- ===== src/Refresh/Runs.antt =====
-- src-tauri/src/application/reconciliation/run.rs: the audit trail's records and their constructors.
use burnly.Prelude.{
  ℕ, zero, suc, Option, none, some, [], ◌∷◌, Result, ok, err, ◌>>=◌, ok_or, if◌then◌else◌, ◌==◌,
}
use burnly.Prelude.Text.{Text, is_blank}
use burnly.Prelude.Int.{ℤ}
use burnly.Domain.Source.{SourceKey}
use burnly.Collection.Request.{CollectionProjection, CollectionScope}
use burnly.Refresh.Outcome.{RefreshOutcome, ImportOutcome}
use burnly.Refresh.Coordinator.{RefreshTrigger}

abbrev max_summary_chars : ℕ
max_summary_chars = 500

pub data RunValidationError : Type 0 where
  empty_job_key empty_app_version empty_collector_key empty_collector_version
        invalid_profile_version missing_daily_timezone empty_error_code :
      RunValidationError

pub record SourceId : Type 0 where
  pub value : ℤ

pub record RefreshRunId : Type 0 where
  pub value : ℤ

pub record ImportRunId : Type 0 where
  pub value : ℤ

pub record JobKey : Type 0 where
  pub value : Text

-- `JobKey::new`
unfoldable pub job_key_new : Text → Result JobKey RunValidationError
job_key_new value =
    if is_blank value then err RunValidationError.empty_job_key else ok (record { value = value })

pub record RunError : Type 0 where
  pub code : Text
  pub summary : Text

-- `chars().take(n)`
abbrev take_chars : ℕ → Text → Text
take_chars zero s = []
take_chars (suc n) [] = []
take_chars (suc n) (c ∷ s) = c ∷ take_chars n s

-- `RunError::new`
unfoldable pub run_error_new : Text → Text → Result RunError RunValidationError
run_error_new code summary =
    if is_blank code
    then err RunValidationError.empty_error_code
    else ok (record { code = code; summary = take_chars max_summary_chars summary })

pub record RefreshRunSpec : Type 0 where
  pub job_key : JobKey
  pub trigger : RefreshTrigger
  pub requested_by_app_version : Text

-- `RefreshRunSpec::new`
unfoldable pub refresh_run_spec_new :
    JobKey → RefreshTrigger → Text → Result RefreshRunSpec RunValidationError
refresh_run_spec_new job_key trigger version =
    if is_blank version
    then err RunValidationError.empty_app_version
    else ok (record { job_key = job_key; trigger = trigger; requested_by_app_version = version })

pub record RefreshRunCompletion : Type 0 where
  pub outcome : RefreshOutcome
  pub finished_at_ms : ℤ
  pub error : Option RunError

pub record ImportCollector : Type 0 where
  pub collector_key : Text
  pub collector_version : Text
  pub profile_version : ℕ

-- `ImportCollector::new`
unfoldable pub import_collector_new : Text → Text → ℕ → Result ImportCollector RunValidationError
import_collector_new key version profile_version =
    if is_blank key
    then err RunValidationError.empty_collector_key
    else if is_blank version
    then err RunValidationError.empty_collector_version
    else if profile_version == 0
    then err RunValidationError.invalid_profile_version
    else ok (record {
      collector_key = key;
      collector_version = version;
      profile_version = profile_version;
    })

-- `.filter(|timezone| !timezone.trim().is_empty())`
abbrev pub not_blank : Option Text → Option Text
not_blank none = none
not_blank (some timezone) = if is_blank timezone then none else some timezone

pub record ImportRunSpec : Type 0 where
  pub refresh_run_id : RefreshRunId
  pub source_id : SourceId
  pub collector : ImportCollector
  pub projection : CollectionProjection
  pub scope : CollectionScope
  pub aggregation_timezone : Option Text

-- The `match` on the projection in `ImportRunSpec::new`.
abbrev pub spec_timezone :
    CollectionProjection → Option Text → Result (Option Text) RunValidationError
spec_timezone CollectionProjection.daily timezone = do
  some_timezone ← ok_or (not_blank timezone) RunValidationError.missing_daily_timezone
  ok (some some_timezone)
spec_timezone CollectionProjection.session timezone = ok (not_blank timezone)

-- `ImportRunSpec::new`
unfoldable pub import_run_spec_new :
    RefreshRunId
    → SourceId
    → ImportCollector
    → CollectionProjection
    → CollectionScope
    → Option Text
    → Result ImportRunSpec RunValidationError
import_run_spec_new refresh_run_id source_id collector projection scope timezone = do
  kept ← spec_timezone projection timezone
  ok (record {
    refresh_run_id = refresh_run_id;
    source_id = source_id;
    collector = collector;
    projection = projection;
    scope = scope;
    aggregation_timezone = kept;
  })

pub record ImportRunCompletion : Type 0 where
  pub outcome : ImportOutcome
  pub records_seen : ℕ
  pub records_rejected : ℕ
  pub finished_at_ms : ℤ
  pub error : Option RunError

pub record ImportRunLookup : Type 0 where
  pub source : SourceKey
  pub projection : CollectionProjection
  pub aggregation_timezone : Option Text
  pub collector_key : Option Text
  pub profile_version : Option ℕ

-- The `match` on the projection in `ImportRunLookup::new`.
abbrev pub lookup_timezone :
    CollectionProjection → Option Text → Result (Option Text) RunValidationError
lookup_timezone CollectionProjection.daily timezone = do
  some_timezone ← ok_or (not_blank timezone) RunValidationError.missing_daily_timezone
  ok (some some_timezone)
lookup_timezone CollectionProjection.session timezone = ok none

-- `ImportRunLookup::new`
unfoldable pub import_run_lookup_new :
    SourceKey → CollectionProjection → Option Text → Result ImportRunLookup RunValidationError
import_run_lookup_new source projection timezone = do
  kept ← lookup_timezone projection timezone
  ok (record {
    source = source;
    projection = projection;
    aggregation_timezone = kept;
    collector_key = none;
    profile_version = none;
  })

-- `ImportRunLookup::compatible`
unfoldable pub compatible :
    SourceKey
    → CollectionProjection
    → Option Text
    → Text
    → ℕ
    → Result ImportRunLookup RunValidationError
unfolding import_run_lookup_new
compatible source projection timezone key profile_version =
    import_run_lookup_new source projection timezone >>= λ lookup.
    if is_blank key
    then err RunValidationError.empty_collector_key
    else if profile_version == 0
    then err RunValidationError.invalid_profile_version
    else ok (record lookup { collector_key = some key; profile_version = some profile_version })
