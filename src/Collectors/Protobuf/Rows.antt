-- ===== src/Collectors/Protobuf/Rows.antt =====
-- `parse_gen_metadata_rows` of protobuf_usage.rs.
pub mod Ids
pub mod Sound
use burnly.Prelude.{
  ℕ, zero, suc, ◌+◌, Bool, true, false, ◌&&◌, not, Option, none, some, List, [], ◌∷◌, ◌++◌, Result,
  ok, err, ltb, is_empty, u32_max, if◌then◌else◌,
}
use burnly.Prelude.Text.{Text}
use burnly.Prelude.Int.{ℤ, pos, ltb_ℤ}
use burnly.Collection.Request.{Instant}
use burnly.CollectSync.TextSet.{TextSet, insert, contains}
use burnly.Collectors.Protobuf.{Bytes}
use burnly.Collectors.Protobuf.Metadata.{
  AntigravityProductVariant, AntigravityUsageRecord, source_reported, unresolved, dated,
  ParsedProtobufUsageRecord, GenMetadataRow, ProtobufUsageError, malformed, parse_gen_metadata_blob,
}

-- The variables of the loop.
pub record Rows : Type 0 where
  pub records : List AntigravityUsageRecord
  pub seen_response_ids : TextSet
  pub rejected : ℕ

abbrev pub no_rows : Rows
no_rows = record { records = []; seen_response_ids = []; rejected = 0 }

-- `rejected.saturating_add(1)`
abbrev pub reject : Rows → Rows
reject rows = record rows {
  rejected = if ltb rows.rejected u32_max then rows.rejected + 1 else u32_max;
}

module _ (from_utf8 : Bytes → Option Text) (from_millis : ℤ → Option Instant)
    (variant : AntigravityProductVariant) (conversation_id : Text) where
  abbrev observed_at : Option ℤ → Option Instant
  observed_at none = none
  observed_at (some ms) = from_millis ms

  unfoldable pub to_usage_record :
      ℤ → Option Instant → ParsedProtobufUsageRecord → AntigravityUsageRecord
  to_usage_record source_record_index legacy_fallback_at parsed = record {
    variant = variant;
    conversation_id = conversation_id;
    raw_model_id = parsed.raw_model_id;
    model_label = parsed.model_label;
    api_provider = none;
    response_id = parsed.response_id;
    source_record_index = some source_record_index;
    observed_at = observed_at parsed.observed_at_ms;
    timestamp_origin = elim parsed.observed_at_ms [ none ↦ unresolved | some _ ↦ source_reported ];
    legacy_fallback_at = legacy_fallback_at;
    calendar_attribution = dated;
    input_tokens = parsed.input_tokens;
    output_tokens = parsed.output_tokens;
    thinking_output_tokens = parsed.thinking_output_tokens;
    response_output_tokens = parsed.response_output_tokens;
    cache_read_tokens = parsed.cache_read_tokens;
    cache_write_tokens = 0;
    consumed_credits = none;
    flow_credits_used = none;
    prompt_credits_used = none;
  }

  module _ (legacy_fallback_at : Option Instant) where
    abbrev pub push : Rows → ℤ → ParsedProtobufUsageRecord → TextSet → Rows
    push rows index parsed seen = record {
      records = rows.records ++ to_usage_record index legacy_fallback_at parsed ∷ [];
      seen_response_ids = seen;
      rejected = rows.rejected;
    }

    abbrev pub on_parsed : Rows → ℤ → ParsedProtobufUsageRecord → Option Text → Rows
    on_parsed rows index parsed none = push rows index parsed rows.seen_response_ids
    on_parsed rows index parsed (some response_id) =
        if contains response_id rows.seen_response_ids
        then reject rows
        else push rows index parsed (insert response_id rows.seen_response_ids)

    -- The body of the loop.
    abbrev pub on_row :
        Rows → ℤ → Result (Option ParsedProtobufUsageRecord) ProtobufUsageError → Rows
    on_row rows index (err _) = reject rows
    on_row rows index (ok none) = rows
    on_row rows index (ok (some parsed)) = on_parsed rows index parsed parsed.response_id

    unfoldable pub read_rows : Rows → List GenMetadataRow → Rows
    read_rows rows [] = rows
    read_rows rows (row ∷ others) =
        read_rows (on_row rows row.index (parse_gen_metadata_blob from_utf8 from_millis row.bytes))
          others

  -- `(session_timestamp_ms > 0).then(…).flatten()`
  abbrev pub fallback_at : ℤ → Option Instant
  fallback_at session_timestamp_ms =
      if ltb_ℤ (pos 0) session_timestamp_ms then from_millis session_timestamp_ms else none

  abbrev pub finish : Rows → Result (List AntigravityUsageRecord) ProtobufUsageError
  finish rows =
      if is_empty rows.records && ltb 0 rows.rejected then err malformed else ok rows.records

  unfoldable pub parse_gen_metadata_rows :
      List GenMetadataRow → ℤ → Result (List AntigravityUsageRecord) ProtobufUsageError
  parse_gen_metadata_rows rows session_timestamp_ms =
      finish (read_rows (fallback_at session_timestamp_ms) no_rows rows)
