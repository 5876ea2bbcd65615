-- ===== src/Collection/Candidate.antt =====
-- The normalised records of src-tauri/src/application/collection/candidate.rs.
use burnly.Prelude.{ℕ, Option, List}
use burnly.Prelude.Text.{Text}
use burnly.Domain.TokenUsage.{TokenUsage}
use burnly.Domain.Cost.{UsageCost, DataQuality}
use burnly.Domain.Source.{SourceKey}
use burnly.Domain.Identity.{NaiveDate}
use burnly.Collection.Request.{CollectionId, CollectorKey, Instant}

pub record CandidateWarning : Type 0 where
  pub code : Text
  pub message : Text

pub record CandidateProvenance : Type 0 where
  pub source : SourceKey
  pub collector : CollectorKey
  pub collector_version : Text
  pub profile_version : ℕ
  pub collection_id : CollectionId
  pub observed_at : Instant
  pub data_quality : DataQuality
  pub warnings : List CandidateWarning

pub record ModelUsageCandidate : Type 0 where
  pub raw_model_id : Text
  pub tokens : TokenUsage
  pub cost : UsageCost

pub record DailyUsageCandidate : Type 0 where
  pub provenance : CandidateProvenance
  pub source_key : Text
  pub usage_date : NaiveDate
  pub aggregation_timezone : Text
  pub tokens : TokenUsage
  pub cost : UsageCost
  pub model_breakdowns : List ModelUsageCandidate

pub record SessionUsageCandidate : Type 0 where
  pub provenance : CandidateProvenance
  pub source_key : Text
  pub source_session_id : Text
  pub project_path : Option Text
  pub first_activity_at : Option Instant
  pub last_activity_at : Option Instant
  pub tokens : TokenUsage
  pub cost : UsageCost
  pub model_breakdowns : List ModelUsageCandidate
