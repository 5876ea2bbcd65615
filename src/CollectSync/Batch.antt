-- ===== src/CollectSync/Batch.antt =====
-- src-tauri/src/application/collect_sync/batch.rs.
pub mod Chunks
pub mod Sorting
pub mod Contents
pub mod Returns
use Prim.Native.Nat.{Ordering}
use burnly.Prelude.{
  ℕ, zero, suc, ◌+◌, ◌-◌, Bool, true, false, Option, none, some, List, [], ◌∷◌, map, Result, ok,
  err, ◌>>=◌, ok_or, ltb, leb, ◌==◌, if◌then◌else◌, is_empty, any, length, min, i64_max,
}
use burnly.Prelude.Text.{Text, text_compare}
use burnly.Prelude.Sort.{sort_by}
use burnly.Prelude.Int.{ℤ, pos, negsuc}
use burnly.Refresh.Outcome.{clamp_count}
use burnly.CollectSync.Scope.{UploadScope}
use burnly.CollectSync.Wire.{
  WireUploadScope, to_wire, collect_contract_version, DailyUsageFactDto, DailyUsagePushRequestDto,
}
use burnly.CollectSync.Batch.Chunks.{chunks}

pub record BatchBuildLimits : Type 0 where
  pub max_facts_per_batch : ℕ
  pub max_models_per_fact : ℕ

-- `BatchBuildLimits::backend_v1`
abbrev pub backend_v1 : BatchBuildLimits
backend_v1 = record { max_facts_per_batch = 1000; max_models_per_fact = 100 }

pub record BatchRequestMeta : Type 0 where
  pub client_device_id : Text
  pub app_version : Text
  pub reporting_timezone : Text
  pub scope : UploadScope

pub record PreparedBatch : Type 0 where
  pub batch_index : ℕ
  pub batch_count : ℕ
  pub client_revision : ℤ
  pub idempotency_key : Text
  pub request_body : Text
  pub payload_hash : Text
  pub window_scope : WireUploadScope
  pub window_start : Text
  pub window_end : Text

pub data BatchBuildError : Type 0 where
  too_many_models : ℕ → BatchBuildError
  serialize : BatchBuildError

-- The comparison of `sort_by`: not after, by date and then by identity key.
abbrev pub fact_le : DailyUsageFactDto → DailyUsageFactDto → Bool
fact_le left right = elim (text_compare left.usage_date right.usage_date) [
  | Ordering.lt ↦ true
  | Ordering.gt ↦ false
  | Ordering.eq ↦ elim (text_compare left.identity_key right.identity_key) [
    | Ordering.gt ↦ false
    | _ ↦ true
  ]
]

unfoldable pub sort_facts : List DailyUsageFactDto → List DailyUsageFactDto
unfolding sort_by
sort_facts facts = sort_by fact_le facts

-- `.min()` and `.max()` of the dates, with `unwrap_or("")`.
abbrev pub earlier : Text → Text → Text
earlier s t = elim (text_compare t s) [ Ordering.lt ↦ t | _ ↦ s ]

abbrev pub later : Text → Text → Text
later s t = elim (text_compare t s) [ Ordering.gt ↦ t | _ ↦ s ]

unfoldable pub min_date : List DailyUsageFactDto → Text
min_date [] = []
min_date (fact ∷ []) = fact.usage_date
min_date (fact ∷ other ∷ facts) = earlier fact.usage_date (min_date (other ∷ facts))

unfoldable pub max_date : List DailyUsageFactDto → Text
max_date [] = []
max_date (fact ∷ []) = fact.usage_date
max_date (fact ∷ other ∷ facts) = later fact.usage_date (max_date (other ∷ facts))

-- `i64::checked_add` of a count.
abbrev pub checked_add_i64 : ℤ → ℕ → Option ℤ
checked_add_i64 (pos a) n = if leb (a + n) i64_max then some (pos (a + n)) else none
checked_add_i64 (negsuc a) n = some (if leb n a then negsuc (a - n) else pos (n - a - 1))

-- The request of one chunk.
abbrev pub request_of : BatchRequestMeta → ℤ → List DailyUsageFactDto → DailyUsagePushRequestDto
request_of meta client_revision chunk = record {
  contract_version = collect_contract_version;
  client_device_id = meta.client_device_id;
  app_version = meta.app_version;
  reporting_timezone = meta.reporting_timezone;
  client_revision = client_revision;
  window = record {
    start_date = min_date chunk;
    end_date = max_date chunk;
    scope = to_wire meta.scope;
  };
  facts = chunk;
}

-- serde's JSON, SHA-256 in hexadecimal, and the UUID that is drawn in each round of the loop.
module _ (to_json : DailyUsagePushRequestDto → Option Text) (sha256_hex : Text → Text)
    (new_uuid : ℕ → Text) (meta : BatchRequestMeta) (first_client_revision : ℤ) where
  -- One round of the loop.
  unfoldable pub prepare : ℕ → ℕ → List DailyUsageFactDto → Result PreparedBatch BatchBuildError
  prepare batch_count index chunk = do
    client_revision ← ok_or (checked_add_i64 first_client_revision (min index i64_max)) serialize
    request_body ← ok_or (to_json (request_of meta client_revision chunk)) serialize
    ok (record {
      batch_index = clamp_count index;
      batch_count = batch_count;
      client_revision = client_revision;
      idempotency_key = new_uuid index;
      request_body = request_body;
      payload_hash = sha256_hex request_body;
      window_scope = to_wire meta.scope;
      window_start = min_date chunk;
      window_end = max_date chunk;
    })

  -- The loop over the chunks, from a given index on.
  pub prepare_from :
      ℕ → ℕ → List (List DailyUsageFactDto) → Result (List PreparedBatch) BatchBuildError
  prepare_from batch_count index [] = ok []
  prepare_from batch_count index (chunk ∷ chunks) = do
    batch ← prepare batch_count index chunk
    batches ← prepare_from batch_count (suc index) chunks
    ok (batch ∷ batches)

  -- `slice::chunks` panics at size 0, and then the result is `none`.
  abbrev pub prepare_chunks :
      Option (List (List DailyUsageFactDto)) → Option (Result (List PreparedBatch) BatchBuildError)
  prepare_chunks none = none
  prepare_chunks (some pieces) = some (prepare_from (clamp_count (length pieces)) 0 pieces)

  unfoldable pub build_prepared_batches :
      List DailyUsageFactDto
      → BatchBuildLimits
      → Option (Result (List PreparedBatch) BatchBuildError)
  unfolding sort_facts prepare_from
  build_prepared_batches facts limits =
      if is_empty facts
      then some (ok [])
      else if any (λ fact. ltb limits.max_models_per_fact (length fact.models)) facts
      then some (err (too_many_models limits.max_models_per_fact))
      else prepare_chunks (chunks limits.max_facts_per_batch (sort_facts facts))
