-- ===== src/Collectors/Tests.antt =====
-- Runs of the collectors' cores on concrete data.
use burnly.Prelude.Int.{pos}
use burnly.Domain.TokenUsage.{TokenUsage}
use burnly.Collectors.UsageFold.{
  UsageEvent, UsageSettlementKind, SessionEvent, usage, retry_started, fold_events,
}
use burnly.Prelude.{ℕ, ◌≡◌, refl, ◌++◌, none, some, ok, List, [], ◌∷◌, All, arith, checked_add}
use burnly.Prelude.Text.{text, trim, trim_start, is_whitespace}
use burnly.Collectors.Protobuf.{
  Bytes, message_field, varint_field, find_field, next_field, read_varint, read_varint_from,
  wire_after, split_at, pick_varint,
}
use burnly.Collectors.Protobuf.Varint.{encode_varint, read_varint-encode_varint}
use burnly.Collectors.Protobuf.Fuel.{find_field-enough}
use burnly.Collectors.Protobuf.Metadata.{
  GenMetadataRow, AntigravityUsageRecord, cli, parse_gen_metadata_blob, parse_usage, token_field,
  checked_add_tokens, proto_timestamp_ms, unresolved, dated,
}
use burnly.Collectors.Protobuf.Rows.{parse_gen_metadata_rows, read_rows, to_usage_record}
use burnly.Collectors.Protobuf.Rows.Ids.{response_ids, AreDistinct}
use burnly.Collectors.Protobuf.Rows.Sound.{IsCounted, parse_gen_metadata_rows-AreDistinct}
use burnly.Collectors.UsageFold.Contributions.{contributions, fold_events-eq-contributions}

abbrev tokens : ℕ → TokenUsage
tokens total = record {
  input_tokens = none;
  output_tokens = none;
  cache_creation_tokens = none;
  cache_read_tokens = none;
  total_tokens = total;
  unclassified_tokens = none;
}

abbrev sample : ℕ → ℕ → UsageEvent
sample seq total = record {
  seq = seq;
  observed_at_ms = pos 1000;
  turn = 1;
  step = 1;
  kind = UsageSettlementKind.assistant_attempt;
  route = none;
  tokens = tokens total;
}

-- A sample, its replacement, a retry, and a sample of the second attempt.
abbrev events : List SessionEvent
events = usage (sample 1 10) ∷ usage (sample 2 20) ∷ retry_started 1 1 ∷ usage (sample 3 20) ∷ []

fold_events-eq-contributions_example : fold_events events ≡ some (contributions none none events)
fold_events-eq-contributions_example = fold_events-eq-contributions events

read_varint-encode_varint_example : read_varint (encode_varint 9 300 ++ 7 ∷ []) ≡ some (300, 7 ∷ [])
read_varint-encode_varint_example = read_varint-encode_varint 300 (7 ∷ []) (omega arith)

-- Input of 100, a response of 5 tokens, and the response id "ab".
abbrev usage_blob : Bytes
usage_blob = 8 ∷ 100 ∷ 72 ∷ 5 ∷ 90 ∷ 2 ∷ 97 ∷ 98 ∷ []

abbrev blob : Bytes
blob = 10 ∷ 10 ∷ 34 ∷ 8 ∷ usage_blob

find_field-enough_example :
    find_field pick_varint 9 20 usage_blob ≡ find_field pick_varint 9 8 usage_blob
find_field-enough_example = find_field-enough pick_varint 9 20 usage_blob (omega arith)

abbrev rows : List GenMetadataRow
rows = record { index = pos 0; bytes = blob } ∷ record { index = pos 1; bytes = blob } ∷ []

abbrev read_record : AntigravityUsageRecord
read_record = record {
  variant = cli;
  conversation_id = text "c";
  raw_model_id = text "unknown";
  model_label = text "unknown";
  api_provider = none;
  response_id = some (text "ab");
  source_record_index = some (pos 0);
  observed_at = none;
  timestamp_origin = unresolved;
  legacy_fallback_at = none;
  calendar_attribution = dated;
  input_tokens = 100;
  output_tokens = 5;
  thinking_output_tokens = 0;
  response_output_tokens = 5;
  cache_read_tokens = 0;
  cache_write_tokens = 0;
  consumed_credits = none;
  flow_credits_used = none;
  prompt_credits_used = none;
}

-- The second row has the response id of the first.
rows-read :
    parse_gen_metadata_rows (λ bytes. some bytes) (λ ms. none) cli (text "c") rows (pos 0)
    ≡ ok (read_record ∷ [])
unfolding parse_gen_metadata_rows read_rows parse_gen_metadata_blob parse_usage message_field
    varint_field find_field next_field read_varint read_varint_from wire_after split_at token_field
    checked_add_tokens checked_add to_usage_record proto_timestamp_ms trim trim_start is_whitespace
rows-read = refl

parse_gen_metadata_rows-AreDistinct_example :
    All IsCounted (read_record ∷ []) × AreDistinct (response_ids (read_record ∷ []))
parse_gen_metadata_rows-AreDistinct_example =
    parse_gen_metadata_rows-AreDistinct (λ bytes. some bytes) (λ ms. none) cli (text "c") rows
      (pos 0) (read_record ∷ []) rows-read
