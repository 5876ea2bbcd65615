-- ===== src/Collection/Request.antt =====
-- Scopes and requests of src-tauri/src/application/collection/request.rs, and the collector's
-- self-description of descriptor.rs.
use burnly.Prelude.{
  ℕ, ◌≡◌, ◌↔◌, ◌≤◌, Bool, Option, none, some, List, Result, ok, err, ltb, if◌then◌else◌, arith,
}
use burnly.Prelude.Text.{Text, is_blank}
use burnly.Domain.Source.{SourceKey}
use burnly.Domain.Identity.{NaiveDate}

-- A `DateTime<Utc>`, by its position on chrono's time line.
abbrev pub Instant : Type 0
Instant = ℕ

pub data CollectionProjection : Type 0 where
  daily session : CollectionProjection

pub data RequestValidationError : Type 0 where
  empty_collection_id invalid_date_range missing_aggregation_timezone : RequestValidationError

pub record CollectionId : Type 0 where
  pub value : Text

unfoldable pub collection_id_new : Text → Result CollectionId RequestValidationError
collection_id_new value =
    if is_blank value then err empty_collection_id else ok (record { value = value })

pub record IncrementalScope : Type 0 where
  pub start_date : NaiveDate
  pub end_date : NaiveDate

pub data CollectionScope : Type 0 where
  full : CollectionScope
  incremental : IncrementalScope → CollectionScope

-- `CollectionScope::incremental`
unfoldable pub scope_incremental :
    NaiveDate → NaiveDate → Result CollectionScope RequestValidationError
scope_incremental start_date end_date =
    if ltb end_date start_date
    then err invalid_date_range
    else ok (incremental (record { start_date = start_date; end_date = end_date }))

pub data CollectionSettings : Type 0 where
  claude_code : CollectionSettings

pub record CollectionRequest : Type 0 where
  pub collection_id : CollectionId
  pub source : SourceKey
  pub projection : CollectionProjection
  pub scope : CollectionScope
  pub aggregation_timezone : Option Text
  pub settings : CollectionSettings
  pub requested_at : Instant

-- `CollectionRequest::daily`
unfoldable pub daily_request :
    CollectionId
    → SourceKey
    → CollectionScope
    → Text
    → Instant
    → Result CollectionRequest RequestValidationError
daily_request id source scope timezone requested_at =
    if is_blank timezone
    then err missing_aggregation_timezone
    else ok (record {
      collection_id = id;
      source = source;
      projection = daily;
      scope = scope;
      aggregation_timezone = some timezone;
      settings = claude_code;
      requested_at = requested_at;
    })

-- `CollectionRequest::session`
unfoldable pub session_request :
    CollectionId → SourceKey → CollectionScope → Instant → CollectionRequest
session_request id source scope requested_at = record {
  collection_id = id;
  source = source;
  projection = session;
  scope = scope;
  aggregation_timezone = none;
  settings = claude_code;
  requested_at = requested_at;
}

pub data DescriptorValidationError : Type 0 where
  empty_collector_key : DescriptorValidationError

pub record CollectorKey : Type 0 where
  pub value : Text

unfoldable pub collector_key_new : Text → Result CollectorKey DescriptorValidationError
collector_key_new value =
    if is_blank value then err empty_collector_key else ok (record { value = value })

pub record ProfileDescriptor : Type 0 where
  pub collector : CollectorKey
  pub source : SourceKey
  pub profile_version : ℕ
  pub supported_projections : List CollectionProjection

-- The derived `==` of the enum.
abbrev pub same_projection : CollectionProjection → CollectionProjection → Bool
same_projection daily daily = Bool.true
same_projection session session = Bool.true
same_projection _ _ = Bool.false

-- A scope whose dates are in order.
abbrev pub IsOrdered : CollectionScope → Type 0
IsOrdered full = Unit
IsOrdered (incremental range) = range.start_date ≤ range.end_date

-- `CollectionScope::incremental` accepts exactly the ordered ranges, and keeps their dates.
pub scope_incremental-ok_iff :
    (s e : NaiveDate)
    → (scope_incremental s e ≡ ok (incremental (record { start_date = s; end_date = e })) ↔ s ≤ e)
      × ((scope : CollectionScope) → scope_incremental s e ≡ ok scope → IsOrdered scope)
unfolding scope_incremental
scope_incremental-ok_iff s e = ((λ h. ground arith, λ h. ground arith), λ scope h. ground arith)
