-- ===== src/Collectors/Protobuf/Metadata/Tokens.antt =====
-- The token counts of a parsed record.
use burnly.Prelude.{
  ℕ, ◌+◌, ◌≤◌, ◌<◌, ◌≡◌, refl, Bool, true, false, Option, none, some, Result, ok, err, ◌>>=◌, ok_or,
  ltb, leb, checked_add, u64_max, arith, length, if◌then◌else◌,
}
use burnly.Prelude.Text.{Text}
use burnly.Prelude.Int.{ℤ}
use burnly.Collection.Request.{Instant}
use burnly.Collectors.Protobuf.{Bytes, message_field, varint_field}
use burnly.Collectors.Protobuf.Metadata.{
  ParsedProtobufUsageRecord, ProtobufUsageError, max_token_value, max_blob_bytes, malformed,
  bounded_token, token_field, checked_add_tokens, parsed_record, parse_usage,
  parse_gen_metadata_blob,
}

-- Each count is bounded, the output is the sum of its two parts, and there is some token.
pub record IsSound (parsed : ParsedProtobufUsageRecord) : Type 0 where
  pub input_bounded : parsed.input_tokens ≤ 2000000000
  pub output_bounded : parsed.output_tokens ≤ 2000000000
  pub cache_bounded : parsed.cache_read_tokens ≤ 1000000000
  pub output_sum :
      parsed.output_tokens ≡ parsed.response_output_tokens + parsed.thinking_output_tokens
  pub has_tokens : 0 < parsed.input_tokens + parsed.output_tokens + parsed.cache_read_tokens

-- Of the value of a result.
abbrev Holds : {A : Type 0} → (A → Type 0) → Result A ProtobufUsageError → Type 0
Holds P (ok a) = P a
Holds P (err e) = Unit

abbrev AtMost : ℕ → ℕ → Type 0
AtMost bound value = value ≤ bound

abbrev IsSum : ℕ → ℕ → ℕ → Type 0
IsSum left right sum = sum ≡ left + right

bind-Holds :
    {A B : Type 0} (P : A → Type 0) (Q : B → Type 0) (r : Result A ProtobufUsageError)
    (f : A → Result B ProtobufUsageError)
    → Holds P r
    → ((a : A) → P a → Holds Q (f a))
    → Holds Q (r >>= f)
bind-Holds P Q (ok a) f h k = k a h
bind-Holds P Q (err e) f h k = tt

unless-Holds :
    (P : ℕ → Type 0) (b : Bool) (e : ProtobufUsageError) (value : ℕ)
    → (b ≡ false → P value)
    → Holds P (if b then err e else ok value)
unless-Holds P true e value h = tt
unless-Holds P false e value h = h refl

bounded-Holds : (found : Option ℕ) → Holds (λ value. value ≤ 1000000000) (bounded_token found)
bounded-Holds none = omega arith
bounded-Holds (some value) =
    unless-Holds _ (ltb max_token_value value) _ value (λ h. ground (arith, h))

token_field-Holds :
    (blob : Bytes) (field : ℕ) → Holds (λ value. value ≤ 1000000000) (token_field blob field)
unfolding token_field
token_field-Holds blob field = bounded-Holds (varint_field blob field)

or_overflow-Holds :
    (b : Bool) (sum : ℕ) (e : ProtobufUsageError)
    → Holds (λ n. n ≡ sum) (ok_or (if b then some sum else none) e)
or_overflow-Holds true sum e = refl
or_overflow-Holds false sum e = tt

checked_add-Holds :
    (left right : ℕ) → Holds (λ sum. sum ≡ left + right) (checked_add_tokens left right)
unfolding checked_add_tokens checked_add
checked_add-Holds left right = or_overflow-Holds (leb (left + right) u64_max) (left + right) _

abbrev pub SoundIf : Option ParsedProtobufUsageRecord → Type 0
SoundIf none = Unit
SoundIf (some parsed) = IsSound parsed

if-SoundIf :
    (b : Bool) (parsed : ParsedProtobufUsageRecord)
    → (b ≡ false → IsSound parsed)
    → SoundIf (if b then none else some parsed)
if-SoundIf true parsed h = tt
if-SoundIf false parsed h = h refl

-- Of what is parsed from a blob.
abbrev pub ParsesSound : Result (Option ParsedProtobufUsageRecord) ProtobufUsageError → Type 0
ParsesSound (ok found) = SoundIf found
ParsesSound (err e) = Unit

Holds-ParsesSound :
    (r : Result (Option ParsedProtobufUsageRecord) ProtobufUsageError)
    → Holds SoundIf r
    → ParsesSound r
Holds-ParsesSound (ok found) h = h
Holds-ParsesSound (err e) h = tt

module _ (from_utf8 : Bytes → Option Text) (from_millis : ℤ → Option Instant) where
  parsed-SoundIf :
      (chat_model usage : Bytes) (input output cache_read response thinking : ℕ)
      → input ≤ 2000000000
      → cache_read ≤ 1000000000
      → response ≤ 1000000000
      → thinking ≤ 1000000000
      → output ≡ response + thinking
      → SoundIf (
          parsed_record from_utf8 from_millis chat_model usage input output cache_read response
            thinking)
  parsed-SoundIf chat_model usage input output cache_read response thinking i c r t o =
      if-SoundIf _ _ (λ h. record {
        input_bounded = i;
        output_bounded = omega arith;
        cache_bounded = c;
        output_sum = o;
        has_tokens = ground (arith, h);
      })

  usage-Holds :
      (chat_model usage : Bytes)
      → Holds SoundIf (parse_usage from_utf8 from_millis chat_model usage)
  unfolding parse_usage
  usage-Holds chat_model usage =
      bind-Holds (AtMost 1000000000) SoundIf _ _ (token_field-Holds usage 1) (λ fixed_input f.
        bind-Holds (AtMost 1000000000) SoundIf _ _ (token_field-Holds usage 2) (λ new_input n.
          bind-Holds (IsSum fixed_input new_input) SoundIf _ _
            (checked_add-Holds fixed_input new_input)
            (λ input i.
              bind-Holds (AtMost 1000000000) SoundIf _ _ (token_field-Holds usage 5)
                (λ cache_read c.
                  bind-Holds (AtMost 1000000000) SoundIf _ _ (token_field-Holds usage 9)
                    (λ response r.
                      bind-Holds (AtMost 1000000000) SoundIf _ _ (token_field-Holds usage 10)
                        (λ thinking t.
                          bind-Holds (IsSum response thinking) SoundIf _ _
                            (checked_add-Holds response thinking)
                            (λ output o.
                              parsed-SoundIf chat_model usage input output cache_read response
                                thinking (omega arith) c r t o)))))))

  or-Holds :
      (o : Option Bytes) (e : ProtobufUsageError)
      (f : Bytes → Result (Option ParsedProtobufUsageRecord) ProtobufUsageError)
      → ((bytes : Bytes) → Holds SoundIf (f bytes))
      → Holds SoundIf (ok_or o e >>= f)
  or-Holds none e f h = tt
  or-Holds (some bytes) e f h = h bytes

  if-Holds :
      (b : Bool) (r : Result (Option ParsedProtobufUsageRecord) ProtobufUsageError)
      (e : ProtobufUsageError)
      → Holds SoundIf r
      → Holds SoundIf (if b then err e else r)
  if-Holds true r e h = tt
  if-Holds false r e h = h

  pub blob-ParsesSound :
      (blob : Bytes) → ParsesSound (parse_gen_metadata_blob from_utf8 from_millis blob)
  unfolding parse_gen_metadata_blob
  blob-ParsesSound blob = Holds-ParsesSound _ (
      if-Holds (ltb max_blob_bytes (length blob)) _ _ (
        or-Holds (message_field blob 1) malformed _ (λ chat_model.
          or-Holds (message_field chat_model 4) malformed _ (usage-Holds chat_model))))
