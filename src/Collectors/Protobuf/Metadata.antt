-- ===== src/Collectors/Protobuf/Metadata.antt =====
-- The usage records of protobuf_usage.rs, with AntigravityUsageRecord of usage_extractor.rs.
pub mod Tokens
use burnly.Prelude.{
  ℕ, zero, suc, ◌+◌, ◌*◌, ◌/◌, Bool, true, false, ◌&&◌, not, Option, none, some, List, [], ◌∷◌,
  ◌++◌, length, Result, ok, err, ◌>>=◌, ok_or, ltb, leb, ◌==◌, is_empty, checked_add, i64_max,
  u32_max, if◌then◌else◌,
}
use burnly.Prelude.Text.{Text, text, trim}
use burnly.Prelude.Int.{ℤ, pos, ltb_ℤ}
use burnly.Collection.Request.{Instant}
use burnly.CollectSync.TextSet.{TextSet, insert, contains}
use burnly.Collectors.Protobuf.{Bytes, message_field, varint_field}

abbrev pub max_blob_bytes : ℕ
max_blob_bytes = 4194304

abbrev pub max_token_value : ℕ
max_token_value = 1000000000

pub data AntigravityProductVariant : Type 0 where
  app ide cli : AntigravityProductVariant

pub data AntigravityTimestampOrigin : Type 0 where
  source_reported first_seen legacy_unknown unresolved : AntigravityTimestampOrigin

pub data AntigravityCalendarAttribution : Type 0 where
  dated undated_baseline : AntigravityCalendarAttribution

pub record AntigravityUsageRecord : Type 0 where
  pub variant : AntigravityProductVariant
  pub conversation_id : Text
  pub raw_model_id : Text
  pub model_label : Text
  pub api_provider : Option Text
  pub response_id : Option Text
  pub source_record_index : Option ℤ
  pub observed_at : Option Instant
  pub timestamp_origin : AntigravityTimestampOrigin
  pub legacy_fallback_at : Option Instant
  pub calendar_attribution : AntigravityCalendarAttribution
  pub input_tokens : ℕ
  pub output_tokens : ℕ
  pub thinking_output_tokens : ℕ
  pub response_output_tokens : ℕ
  pub cache_read_tokens : ℕ
  pub cache_write_tokens : ℕ
  pub consumed_credits : Option Text
  pub flow_credits_used : Option Text
  pub prompt_credits_used : Option Text

pub record ParsedProtobufUsageRecord : Type 0 where
  pub raw_model_id : Text
  pub model_label : Text
  pub response_id : Option Text
  pub input_tokens : ℕ
  pub output_tokens : ℕ
  pub thinking_output_tokens : ℕ
  pub response_output_tokens : ℕ
  pub cache_read_tokens : ℕ
  pub observed_at_ms : Option ℤ

-- Its field `data` is `bytes` here.
pub record GenMetadataRow : Type 0 where
  pub index : ℤ
  pub bytes : Bytes

pub data ProtobufUsageError : Type 0 where
  blob_too_large malformed invalid_token_value token_overflow : ProtobufUsageError

-- The value of a token field that was found, or 0, unless it is too large.
abbrev pub bounded_token : Option ℕ → Result ℕ ProtobufUsageError
bounded_token none = ok 0
bounded_token (some value) = if ltb max_token_value value then err invalid_token_value else ok value

unfoldable pub token_field : Bytes → ℕ → Result ℕ ProtobufUsageError
token_field blob field = bounded_token (varint_field blob field)

unfoldable pub checked_add_tokens : ℕ → ℕ → Result ℕ ProtobufUsageError
unfolding checked_add
checked_add_tokens left right = ok_or (checked_add left right) token_overflow

-- `i64::try_from(…).ok()?`
abbrev fits_i64 : Option ℕ → Option ℕ
fits_i64 none = none
fits_i64 (some value) = if leb value i64_max then some value else none

-- `seconds.checked_mul(1000)?.checked_add(nanos / 1_000_000)`
abbrev millis : ℕ → ℕ → Option ℤ
millis seconds nanos =
    if leb (seconds * 1000 + nanos / 1000000) i64_max
    then some (pos (seconds * 1000 + nanos / 1000000))
    else none

abbrev with_nanos : ℕ → Option ℕ → Option ℤ
with_nanos seconds none = none
with_nanos seconds (some nanos) = if leb nanos 999999999 then millis seconds nanos else none

abbrev or_zero : Option ℕ → Option ℕ
or_zero none = some 0
or_zero (some value) = some value

unfoldable pub proto_timestamp_ms : Bytes → Option ℤ
proto_timestamp_ms blob = elim (fits_i64 (varint_field blob 1)) [
  | none ↦ none
  | some seconds ↦ with_nanos seconds (fits_i64 (or_zero (varint_field blob 2)))
]

unfoldable pub parse_trajectory_created_ms : Bytes → Option ℤ
parse_trajectory_created_ms blob =
    if ltb max_blob_bytes (length blob)
    then none
    else elim (message_field blob 2) [ none ↦ none | some bytes ↦ proto_timestamp_ms bytes ]

-- `and_then` on a nested message.
abbrev nested : Option Bytes → ℕ → Option Bytes
nested none field = none
nested (some bytes) field = message_field bytes field

abbrev if_positive : Option ℤ → Option ℤ
if_positive none = none
if_positive (some value) = if ltb_ℤ (pos 0) value then some value else none

abbrev stamp_of : Option Bytes → Option ℤ
stamp_of none = none
stamp_of (some bytes) = if_positive (proto_timestamp_ms bytes)

-- `.map(str::trim).filter(|value| !value.is_empty())`
abbrev pub trimmed : Option Text → Option Text
trimmed none = none
trimmed (some value) = if is_empty (trim value) then none else some (trim value)

abbrev or_unknown : Option Text → Text
or_unknown none = text "unknown"
or_unknown (some value) = value

-- `std::str::from_utf8`, and chrono's `from_timestamp_millis`.
module _ (from_utf8 : Bytes → Option Text) (from_millis : ℤ → Option Instant) where
  abbrev pub string_field : Bytes → ℕ → Option Text
  string_field blob field = elim (message_field blob field) [
    | none ↦ none
    | some bytes ↦ from_utf8 bytes
  ]

  -- The record of the last lines of `parse_gen_metadata_blob`, unless it has no token.
  abbrev pub parsed_record : Bytes → Bytes → ℕ → ℕ → ℕ → ℕ → ℕ → Option ParsedProtobufUsageRecord
  parsed_record chat_model usage input output cache_read response_output thinking_output =
      if input == 0 && output == 0 && cache_read == 0 && thinking_output == 0
      then none
      else some (record {
        raw_model_id = or_unknown (trimmed (string_field chat_model 19));
        model_label = or_unknown (trimmed (string_field chat_model 19));
        response_id = trimmed (string_field usage 11);
        input_tokens = input;
        output_tokens = output;
        thinking_output_tokens = thinking_output;
        response_output_tokens = response_output;
        cache_read_tokens = cache_read;
        observed_at_ms = stamp_of (nested (message_field chat_model 9) 4);
      })

  unfoldable pub parse_usage :
      Bytes → Bytes → Result (Option ParsedProtobufUsageRecord) ProtobufUsageError
  unfolding trim
  parse_usage chat_model usage = do
    fixed_input ← token_field usage 1
    new_input ← token_field usage 2
    input ← checked_add_tokens fixed_input new_input
    cache_read ← token_field usage 5
    response_output ← token_field usage 9
    thinking_output ← token_field usage 10
    output ← checked_add_tokens response_output thinking_output
    ok (parsed_record chat_model usage input output cache_read response_output thinking_output)

  unfoldable pub parse_gen_metadata_blob :
      Bytes → Result (Option ParsedProtobufUsageRecord) ProtobufUsageError
  parse_gen_metadata_blob blob = if ltb max_blob_bytes (length blob) then err blob_too_large else do
    chat_model ← ok_or (message_field blob 1) malformed
    usage ← ok_or (message_field chat_model 4) malformed
    parse_usage chat_model usage
