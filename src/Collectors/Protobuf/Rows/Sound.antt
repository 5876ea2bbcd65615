-- ===== src/Collectors/Protobuf/Rows/Sound.antt =====
-- The records that `parse_gen_metadata_rows` returns.
use burnly.Prelude.{
  ◌+◌, ◌≤◌, ◌<◌, ◌≡◌, refl, sym, ap, ◌∙◌, Bool, true, false, Option, none, some, List, [], ◌∷◌,
  ◌++◌, Result, ok, err, All, All-append, arith, if◌then◌else◌,
}
use burnly.Prelude.Text.{Text}
use burnly.Prelude.Int.{ℤ}
use burnly.Collection.Request.{Instant}
use burnly.CollectSync.TextSet.{TextSet, insert, contains, contains-insert}
use burnly.Collectors.Protobuf.{Bytes}
use burnly.Collectors.Protobuf.Metadata.{
  AntigravityProductVariant, AntigravityUsageRecord, ParsedProtobufUsageRecord, GenMetadataRow,
  ProtobufUsageError, parse_gen_metadata_blob,
}
use burnly.Collectors.Protobuf.Metadata.Tokens.{IsSound, ParsesSound, blob-ParsesSound}
use burnly.Collectors.Protobuf.Rows.Ids.{
  ids_of, response_ids, AreDistinct, contains-push, distinct-push, append-nil, response_ids-push,
}
use burnly.Collectors.Protobuf.Rows.{
  Rows, no_rows, reject, to_usage_record, push, on_parsed, on_row, read_rows,
  parse_gen_metadata_rows,
}

-- The counts of a record are bounded, its output is the sum of its two parts, and it has tokens.
pub record IsCounted (r : AntigravityUsageRecord) : Type 0 where
  pub input_bounded : r.input_tokens ≤ 2000000000
  pub output_bounded : r.output_tokens ≤ 2000000000
  pub cache_bounded : r.cache_read_tokens ≤ 1000000000
  pub output_sum : r.output_tokens ≡ r.response_output_tokens + r.thinking_output_tokens
  pub has_tokens : 0 < r.input_tokens + r.output_tokens + r.cache_read_tokens

-- The invariant of the loop.
record Inv (rows : Rows) : Type 0 where
  counted : All IsCounted rows.records
  distinct : AreDistinct (response_ids rows.records)
  seen :
      (id : Text)
      → contains id (response_ids rows.records) ≡ true
      → contains id rows.seen_response_ids ≡ true

reject-Inv : (rows : Rows) → Inv rows → Inv (reject rows)
reject-Inv rows h = record { counted = h.counted; distinct = h.distinct; seen = h.seen }

module _ (from_utf8 : Bytes → Option Text) (from_millis : ℤ → Option Instant)
    (variant : AntigravityProductVariant) (conversation_id : Text) where
  to_record-IsCounted :
      (index : ℤ) (legacy : Option Instant) (parsed : ParsedProtobufUsageRecord)
      → IsSound parsed
      → IsCounted
          (to_usage_record from_utf8 from_millis variant conversation_id index legacy parsed)
  unfolding to_usage_record
  to_record-IsCounted index legacy parsed h = record {
    input_bounded = h.input_bounded;
    output_bounded = h.output_bounded;
    cache_bounded = h.cache_bounded;
    output_sum = h.output_sum;
    has_tokens = h.has_tokens;
  }

  module _ (legacy : Option Instant) where
    -- A record is pushed, with what its response id adds to those before.
    push-Inv :
        (rows : Rows) (index : ℤ) (parsed : ParsedProtobufUsageRecord) (id : Option Text)
        (ids : List Text) (seen : TextSet)
        → parsed.response_id ≡ id
        → IsSound parsed
        → Inv rows
        → response_ids rows.records ++ ids_of id ≡ ids
        → AreDistinct ids
        → ((k : Text) → contains k ids ≡ true → contains k seen ≡ true)
        → Inv (push from_utf8 from_millis variant conversation_id legacy rows index parsed seen)
    unfolding to_usage_record
    push-Inv rows index parsed id ids seen e s h i d k =
        let same : response_ids (
              rows.records
              ++ to_usage_record from_utf8 from_millis variant conversation_id index legacy parsed
                ∷ [])
            ≡ ids =
          response_ids-push rows.records _
          ∙ ap (λ o. response_ids rows.records ++ ids_of o) e
          ∙ i in
        record {
          counted =
              All-append IsCounted rows.records _ h.counted
                (to_record-IsCounted index legacy parsed s, tt);
          distinct = rw same d;
          seen = rw same k;
        }

    accepted-Inv :
        (rows : Rows) (index : ℤ) (parsed : ParsedProtobufUsageRecord) (id : Text) (b : Bool)
        → contains id rows.seen_response_ids ≡ b
        → parsed.response_id ≡ some id
        → IsSound parsed
        → Inv rows
        → Inv (
            if b
            then reject rows
            else push from_utf8 from_millis variant conversation_id legacy rows index parsed
                (insert id rows.seen_response_ids))
    accepted-Inv rows index parsed id true c e s h = reject-Inv rows h
    accepted-Inv rows index parsed id false c e s h =
        push-Inv rows index parsed (some id) (response_ids rows.records ++ id ∷ [])
          (insert id rows.seen_response_ids) e s h refl
          (distinct-push id (response_ids rows.records) h.distinct (ground (arith, c, h.seen id)))
          (λ k m. ground (
            arith,
            m,
            h.seen k,
            contains-push k id (response_ids rows.records),
            contains-insert k id rows.seen_response_ids,
          ))

    parsed-Inv :
        (rows : Rows) (index : ℤ) (parsed : ParsedProtobufUsageRecord) (id : Option Text)
        → parsed.response_id ≡ id
        → IsSound parsed
        → Inv rows
        → Inv (on_parsed from_utf8 from_millis variant conversation_id legacy rows index parsed id)
    parsed-Inv rows index parsed none e s h =
        push-Inv rows index parsed none (response_ids rows.records) rows.seen_response_ids e s h
          (append-nil (response_ids rows.records)) h.distinct h.seen
    parsed-Inv rows index parsed (some id) e s h =
        accepted-Inv rows index parsed id (contains id rows.seen_response_ids) refl e s h

    row-Inv :
        (rows : Rows) (index : ℤ) (r : Result (Option ParsedProtobufUsageRecord) ProtobufUsageError)
        → ParsesSound r
        → Inv rows
        → Inv (on_row from_utf8 from_millis variant conversation_id legacy rows index r)
    row-Inv rows index (err e) p h = reject-Inv rows h
    row-Inv rows index (ok none) p h = h
    row-Inv rows index (ok (some parsed)) p h = parsed-Inv rows index parsed _ refl p h

    read-Inv :
        (rows : Rows) (others : List GenMetadataRow)
        → Inv rows
        → Inv (read_rows from_utf8 from_millis variant conversation_id legacy rows others)
    unfolding read_rows
    read-Inv rows [] h = h
    read-Inv rows (row ∷ others) h =
        read-Inv
          (on_row from_utf8 from_millis variant conversation_id legacy rows row.index
            (parse_gen_metadata_blob from_utf8 from_millis row.bytes))
          others (row-Inv rows row.index _ (blob-ParsesSound from_utf8 from_millis row.bytes) h)

  finish-Inv :
      (b : Bool) (e : ProtobufUsageError) (rows : Rows) (records : List AntigravityUsageRecord)
      → Inv rows
      → (if b then err e else ok rows.records) ≡ ok records
      → All IsCounted records × AreDistinct (response_ids records)
  finish-Inv true e rows records h eq = absurd (ground arith)
  finish-Inv false e rows records h eq =
      let same : rows.records ≡ records = ground arith in rw (sym same) (h.counted, h.distinct)

  -- No two of the records that are returned have the same response id, and each record has tokens,
  -- at most two thousand million of input and of output and one thousand million from the cache,
  -- its output being the sum of response and thinking.
  pub parse_gen_metadata_rows-AreDistinct :
      (rows : List GenMetadataRow) (session_timestamp_ms : ℤ)
      (records : List AntigravityUsageRecord)
      → parse_gen_metadata_rows from_utf8 from_millis variant conversation_id rows
          session_timestamp_ms
        ≡ ok records
      → All IsCounted records × AreDistinct (response_ids records)
  unfolding parse_gen_metadata_rows
  parse_gen_metadata_rows-AreDistinct rows session_timestamp_ms records eq =
      finish-Inv _ _ _ records
        (read-Inv _ no_rows rows (record { counted = tt; distinct = tt; seen = λ id m. m })) eq
