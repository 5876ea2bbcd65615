-- ===== src/CollectSync/Wire.antt =====
-- The wire types of src-tauri/src/application/collect_sync/dto.rs and the mapping of export.rs.
use burnly.Prelude.{ℕ, Option, none, some, List, map, Result, ok, ◌>>=◌, ok_or}
use burnly.Prelude.Text.{Text}
use burnly.Prelude.Int.{ℤ}
use burnly.CollectSync.Scope.{UploadScope}

abbrev pub collect_contract_version : ℕ
collect_contract_version = 1

pub data WireUploadScope : Type 0 where
  full incremental : WireUploadScope

-- `WireUploadScope::from`
abbrev pub to_wire : UploadScope → WireUploadScope
to_wire UploadScope.full = WireUploadScope.full
to_wire (UploadScope.incremental _ _ _) = WireUploadScope.incremental

pub record DailyUsageWindowDto : Type 0 where
  pub start_date : Text
  pub end_date : Text
  pub scope : WireUploadScope

pub record DailyUsageCostDto : Type 0 where
  pub status : Text
  pub kind : Text
  pub amount_micros : Option ℤ
  pub currency : Option Text

pub record ModelUsageCostDto : Type 0 where
  pub status : Text
  pub amount_micros : Option ℤ
  pub currency : Option Text

pub record DailyUsageModelDto : Type 0 where
  pub raw_model_id : Option Text
  pub display_name : Option Text
  pub provider_key : Option Text
  pub input_tokens : Option ℕ
  pub output_tokens : Option ℕ
  pub cache_creation_tokens : Option ℕ
  pub cache_read_tokens : Option ℕ
  pub total_tokens : Option ℕ
  pub cost : ModelUsageCostDto

pub record DailyUsageFactDto : Type 0 where
  pub identity_key : Text
  pub identity_version : ℕ
  pub source_key : Text
  pub usage_date : Text
  pub aggregation_timezone : Text
  pub input_tokens : Option ℕ
  pub output_tokens : Option ℕ
  pub cache_creation_tokens : Option ℕ
  pub cache_read_tokens : Option ℕ
  pub total_tokens : ℕ
  pub unclassified_tokens : Option ℕ
  pub cost : DailyUsageCostDto
  pub data_quality : Text
  pub record_state : Text
  pub first_seen_at : Text
  pub last_seen_at : Text
  pub removed_at : Option Text
  pub models : List DailyUsageModelDto

pub record DailyUsagePushRequestDto : Type 0 where
  pub contract_version : ℕ
  pub client_device_id : Text
  pub app_version : Text
  pub reporting_timezone : Text
  pub client_revision : ℤ
  pub window : DailyUsageWindowDto
  pub facts : List DailyUsageFactDto

pub record ExportedDailyModel : Type 0 where
  pub raw_model_id : Option Text
  pub display_name : Option Text
  pub provider_key : Option Text
  pub input_tokens : Option ℕ
  pub output_tokens : Option ℕ
  pub cache_creation_tokens : Option ℕ
  pub cache_read_tokens : Option ℕ
  pub total_tokens : Option ℕ
  pub cost_status : Text
  pub cost_amount_micros : Option ℤ
  pub cost_currency : Option Text

pub record ExportedDailyFact : Type 0 where
  pub identity_key : Text
  pub identity_version : ℕ
  pub source_key : Text
  pub usage_date : Text
  pub aggregation_timezone : Text
  pub input_tokens : Option ℕ
  pub output_tokens : Option ℕ
  pub cache_creation_tokens : Option ℕ
  pub cache_read_tokens : Option ℕ
  pub total_tokens : ℕ
  pub unclassified_tokens : Option ℕ
  pub cost_status : Text
  pub cost_kind : Text
  pub cost_amount_micros : Option ℤ
  pub cost_currency : Option Text
  pub data_quality : Text
  pub record_state : Text
  pub first_seen_at_ms : ℤ
  pub last_seen_at_ms : ℤ
  pub removed_at_ms : Option ℤ
  pub models : List ExportedDailyModel

pub data ExportMapError : Type 0 where
  invalid_timestamp : ExportMapError

abbrev pub map_model : ExportedDailyModel → DailyUsageModelDto
map_model model = record {
  raw_model_id = model.raw_model_id;
  display_name = model.display_name;
  provider_key = model.provider_key;
  input_tokens = model.input_tokens;
  output_tokens = model.output_tokens;
  cache_creation_tokens = model.cache_creation_tokens;
  cache_read_tokens = model.cache_read_tokens;
  total_tokens = model.total_tokens;
  cost = record {
    status = model.cost_status;
    amount_micros = model.cost_amount_micros;
    currency = model.cost_currency;
  };
}

-- chrono's time stamp of milliseconds since the epoch, `none` if they are out of its range.
module _ (rfc3339 : ℤ → Option Text) where
  -- `ms_to_rfc3339`
  abbrev pub ms_to_rfc3339 : ℤ → Result Text ExportMapError
  ms_to_rfc3339 ms = ok_or (rfc3339 ms) invalid_timestamp

  -- `.map(ms_to_rfc3339).transpose()`
  abbrev pub optional_stamp : Option ℤ → Result (Option Text) ExportMapError
  optional_stamp none = ok none
  optional_stamp (some ms) = do stamp ← ms_to_rfc3339 ms; ok (some stamp)

  unfoldable pub map_exported_fact : ExportedDailyFact → Result DailyUsageFactDto ExportMapError
  map_exported_fact fact = do
    first_seen ← ms_to_rfc3339 fact.first_seen_at_ms
    last_seen ← ms_to_rfc3339 fact.last_seen_at_ms
    removed ← optional_stamp fact.removed_at_ms
    ok (record {
      identity_key = fact.identity_key;
      identity_version = fact.identity_version;
      source_key = fact.source_key;
      usage_date = fact.usage_date;
      aggregation_timezone = fact.aggregation_timezone;
      input_tokens = fact.input_tokens;
      output_tokens = fact.output_tokens;
      cache_creation_tokens = fact.cache_creation_tokens;
      cache_read_tokens = fact.cache_read_tokens;
      total_tokens = fact.total_tokens;
      unclassified_tokens = fact.unclassified_tokens;
      cost = record {
        status = fact.cost_status;
        kind = fact.cost_kind;
        amount_micros = fact.cost_amount_micros;
        currency = fact.cost_currency;
      };
      data_quality = fact.data_quality;
      record_state = fact.record_state;
      first_seen_at = first_seen;
      last_seen_at = last_seen;
      removed_at = removed;
      models = map map_model fact.models;
    })
