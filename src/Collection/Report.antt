-- ===== src/Collection/Report.antt =====
-- `CollectionResult` and `CollectionMetadata` of src-tauri/src/application/collection/result.rs.
use burnly.Prelude.{
  ℕ, ◌+◌, ◌⊎◌, ◌≡◌, ◌≤◌, not, ◌&&◌, Option, List, [], Result, ok, err, ltb, if◌then◌else◌, is_empty,
  length, arith,
}
use burnly.Prelude.Text.{Text, is_blank}
use burnly.Prelude.Int.{ℤ}
use burnly.Domain.Source.{SourceKey}
use burnly.Collection.Request.{
  CollectionId, CollectorKey, CollectionScope, CollectionProjection, Instant,
}
use burnly.Collection.Candidate.{DailyUsageCandidate, SessionUsageCandidate}

abbrev max_rejections : ℕ
max_rejections = 100

abbrev max_warnings : ℕ
max_warnings = 100

pub data CollectionOutcome : Type 0 where
  complete partial empty : CollectionOutcome

pub record CollectionMetadata : Type 0 where
  pub collection_id : CollectionId
  pub collector : CollectorKey
  pub collector_version : Text
  pub source : SourceKey
  pub effective_scope : CollectionScope
  pub profile_version : ℕ
  pub started_at : Instant
  pub finished_at : Instant

pub record CollectionPeriod : Type 0 where
  pub started_at : Instant
  pub finished_at : Instant

pub record RejectedRecord : Type 0 where
  pub code : Text
  pub record_index : Option ℕ

pub record CollectionWarning : Type 0 where
  pub code : Text
  pub message : Text

pub record ProcessSummary : Type 0 where
  pub runtime_ms : ℕ
  pub stdout_bytes : ℕ
  pub stderr_bytes : ℕ
  pub exit_code : Option ℤ

pub data ResultValidationError : Type 0 where
  empty_collector_version finished_before_started too_many_rejections too_many_warnings
        all_records_rejected :
      ResultValidationError

pub record CollectionResult : Type 0 where
  pub metadata : CollectionMetadata
  pub projection : CollectionProjection
  pub outcome : CollectionOutcome
  pub daily_candidates : List DailyUsageCandidate
  pub session_candidates : List SessionUsageCandidate
  pub rejections : List RejectedRecord
  pub warnings : List CollectionWarning
  pub process_summary : ProcessSummary

-- `CollectionMetadata::new`
unfoldable pub metadata_new :
    CollectionId
    → CollectorKey
    → Text
    → SourceKey
    → CollectionScope
    → ℕ
    → CollectionPeriod
    → Result CollectionMetadata ResultValidationError
metadata_new id collector version source scope profile period =
    if is_blank version
    then err empty_collector_version
    else if ltb period.finished_at period.started_at
    then err finished_before_started
    else ok (record {
      collection_id = id;
      collector = collector;
      collector_version = version;
      source = source;
      effective_scope = scope;
      profile_version = profile;
      started_at = period.started_at;
      finished_at = period.finished_at;
    })

-- `CollectionResult::daily`
unfoldable pub daily_result :
    CollectionMetadata
    → List DailyUsageCandidate
    → List RejectedRecord
    → List CollectionWarning
    → ProcessSummary
    → Result CollectionResult ResultValidationError
daily_result metadata candidates rejections warnings summary =
    if ltb max_rejections (length rejections)
    then err too_many_rejections
    else if ltb max_warnings (length warnings)
    then err too_many_warnings
    else if is_empty candidates && not (is_empty rejections)
    then err all_records_rejected
    else ok (record {
      metadata = metadata;
      projection = CollectionProjection.daily;
      outcome =
          if is_empty candidates then empty else if is_empty rejections then complete else partial;
      daily_candidates = candidates;
      session_candidates = [];
      rejections = rejections;
      warnings = warnings;
      process_summary = summary;
    })

-- `CollectionResult::session`
unfoldable pub session_result :
    CollectionMetadata
    → List SessionUsageCandidate
    → List RejectedRecord
    → List CollectionWarning
    → ProcessSummary
    → Result CollectionResult ResultValidationError
session_result metadata candidates rejections warnings summary =
    if ltb max_rejections (length rejections)
    then err too_many_rejections
    else if ltb max_warnings (length warnings)
    then err too_many_warnings
    else if is_empty candidates && not (is_empty rejections)
    then err all_records_rejected
    else ok (record {
      metadata = metadata;
      projection = CollectionProjection.session;
      outcome =
          if is_empty candidates then empty else if is_empty rejections then complete else partial;
      daily_candidates = [];
      session_candidates = candidates;
      rejections = rejections;
      warnings = warnings;
      process_summary = summary;
    })

-- How many records of either kind a result carries.
abbrev pub record_count : CollectionResult → ℕ
record_count r = length r.daily_candidates + length r.session_candidates

-- What the outcome of a result says about its records and rejections. In particular no result
-- hides that every record was rejected.
abbrev pub Explains : CollectionResult → CollectionOutcome → Type 0
Explains r complete = (1 ≤ record_count r) × (length r.rejections ≡ 0)
Explains r partial = (1 ≤ record_count r) × (1 ≤ length r.rejections)
Explains r empty = (record_count r ≡ 0) × (length r.rejections ≡ 0)

pub record IsSound (r : CollectionResult) : Type 0 where
  pub outcome_explained : Explains r r.outcome
  pub rejections_bounded : length r.rejections ≤ max_rejections
  pub warnings_bounded : length r.warnings ≤ max_warnings
  pub no_sessions_in_daily : r.projection ≡ CollectionProjection.daily → r.session_candidates ≡ []
  pub no_days_in_session : r.projection ≡ CollectionProjection.session → r.daily_candidates ≡ []

-- Both constructors of a collection result return sound results only.
pub results-IsSound :
    (m : CollectionMetadata) (days : List DailyUsageCandidate)
    (sessions : List SessionUsageCandidate) (rejected : List RejectedRecord)
    (warned : List CollectionWarning) (summary : ProcessSummary) (r : CollectionResult)
    → (daily_result m days rejected warned summary ≡ ok r)
      ⊎ (session_result m sessions rejected warned summary ≡ ok r)
    → IsSound r
unfolding daily_result session_result
results-IsSound m days sessions rejected warned summary r h = ground arith
