-- ===== src/CollectSync/Tests.antt =====
-- Runs of the upload of daily usage on concrete data.
use mathlib.Core.List.{Perm}
use burnly.Prelude.{
  ℕ, ◌≡◌, ◌⊎◌, ◌≤◌, refl, true, false, Option, none, some, List, [], ◌∷◌, All, In, any, ltb, length,
  min, max, ok, err, inl, arith,
}
use burnly.Prelude.Text.{Text, text, trim, trim_start, is_whitespace}
use burnly.Prelude.Int.{pos}
use burnly.Domain.Identity.{NaiveDate}
use burnly.Refresh.Outcome.{clamp_count}
use burnly.CollectSync.TextSet.{contains}
use burnly.CollectSync.Scope.{
  UploadScope, full, incremental, merge_upload_scopes, CommittedDailyTarget, CommittedDailyUpload,
  into_upload_scope,
}
use burnly.CollectSync.Scope.Merge.{Uploads, merge-covers, merge-adds_nothing}
use burnly.CollectSync.Scope.Committed.{IsUsable, first_day, into_upload_scope-covers}
use burnly.CollectSync.Wire.{WireUploadScope, DailyUsageFactDto, DailyUsagePushRequestDto}
use burnly.CollectSync.Batch.{
  min_date, max_date, prepare, backend_v1, BatchRequestMeta, PreparedBatch, build_prepared_batches,
  too_many_models,
}
use burnly.CollectSync.Batch.Chunks.{chunks, concat, IsPiece}
use burnly.CollectSync.Batch.Sorting.{IsSorted}
use burnly.CollectSync.Batch.Contents.{AllCarry, build-AllCarry}
use burnly.CollectSync.Batch.Returns.{build-outcome}

abbrev pending : UploadScope
pending = incremental (text "codex" ∷ []) 10 20

abbrev incoming : UploadScope
incoming = incremental (text "zed" ∷ []) 18 25

merge-covers_example : Uploads (merge_upload_scopes (some pending) incoming) (text "codex") 12
merge-covers_example =
    merge-covers (some pending) incoming (text "codex") 12 (inl (refl, omega arith, omega arith))

merged : Uploads (merge_upload_scopes (some pending) incoming) (text "zed") 12
unfolding merge_upload_scopes
merged = (refl, omega arith, omega arith)

merge-adds_nothing_example :
    ((contains (text "zed") (text "codex" ∷ []) ≡ true)
      ⊎ (contains (text "zed") (text "zed" ∷ []) ≡ true))
    × (min 10 18 ≤ 12)
    × (12 ≤ max 20 25)
merge-adds_nothing_example =
    merge-adds_nothing (text "codex" ∷ []) (text "zed" ∷ []) 10 20 18 25 (text "zed") 12 merged

abbrev target : CommittedDailyTarget
target = record { source_key = text "codex"; start_date = 10; end_date = 20; full_history = false }

abbrev upload : CommittedDailyUpload
upload = record { targets = target ∷ []; full_refresh_complete = false }

target-IsUsable : IsUsable (some 1) target
unfolding trim trim_start is_whitespace
target-IsUsable = record { ordered = omega arith; named = refl; modern = omega arith }

into_upload_scope-covers_example :
    (scope : UploadScope) × (into_upload_scope (some 1) upload ≡ some scope)
    × ((t : CommittedDailyTarget) (day : NaiveDate)
        → In t upload.targets
        → first_day (some 1) t ≤ day
        → day ≤ t.end_date
        → Uploads scope (trim t.source_key) day)
into_upload_scope-covers_example =
    into_upload_scope-covers (some 1) upload (λ h. absurd (ground arith)) (target-IsUsable, tt)

abbrev meta : BatchRequestMeta
meta = record {
  client_device_id = text "d";
  app_version = text "1";
  reporting_timezone = text "UTC";
  scope = full;
}

abbrev fact : DailyUsageFactDto
fact = record {
  identity_key = text "k";
  identity_version = 1;
  source_key = text "codex";
  usage_date = text "2026-07-04";
  aggregation_timezone = text "UTC";
  input_tokens = none;
  output_tokens = none;
  cache_creation_tokens = none;
  cache_read_tokens = none;
  total_tokens = 8;
  unclassified_tokens = none;
  cost = record {
    status = text "unavailable";
    kind = text "calculated";
    amount_micros = none;
    currency = none;
  };
  data_quality = text "complete";
  record_state = text "active";
  first_seen_at = text "a";
  last_seen_at = text "b";
  removed_at = none;
  models = [];
}

-- JSON, the hash and the UUIDs as constants.
abbrev to_json : DailyUsagePushRequestDto → Option Text
to_json request = some request.app_version

abbrev hash : Text → Text
hash body = body

abbrev uuid : ℕ → Text
uuid n = n ∷ []

abbrev batch : PreparedBatch
batch = record {
  batch_index = 0;
  batch_count = 1;
  client_revision = pos 7;
  idempotency_key = uuid 0;
  request_body = text "1";
  payload_hash = text "1";
  window_scope = WireUploadScope.full;
  window_start = text "2026-07-04";
  window_end = text "2026-07-04";
}

build_one :
    build_prepared_batches to_json hash uuid meta (pos 7) (fact ∷ []) backend_v1
    ≡ some (ok (batch ∷ []))
unfolding build_prepared_batches chunks prepare min_date max_date
build_one = refl

build-AllCarry_example :
    (pieces : List (List DailyUsageFactDto)) × Perm (concat pieces) (fact ∷ [])
    × IsSorted (concat pieces)
    × All (IsPiece 1000) pieces
    × AllCarry to_json hash uuid meta (pos 7) (clamp_count (length pieces)) 0 pieces (batch ∷ [])
build-AllCarry_example =
    build-AllCarry to_json hash uuid meta (pos 7) (fact ∷ []) backend_v1 (batch ∷ []) (omega arith)
      build_one

to_json-total : (request : DailyUsagePushRequestDto) → (body : Text) × (to_json request ≡ some body)
to_json-total request = (request.app_version, refl)

build-outcome_example :
    ((any (λ f. ltb 100 (length f.models)) (fact ∷ []) ≡ true)
      × (build_prepared_batches to_json hash uuid meta (pos 7) (fact ∷ []) backend_v1
          ≡ some (err (too_many_models 100))))
    ⊎ ((any (λ f. ltb 100 (length f.models)) (fact ∷ []) ≡ false)
        × ((batches : List PreparedBatch) × (build_prepared_batches to_json hash uuid meta
                (pos 7)
                (fact ∷ [])
                backend_v1
              ≡ some (ok batches))))
build-outcome_example =
    build-outcome to_json hash uuid meta (pos 7) (fact ∷ []) backend_v1 7 (omega arith)
      to_json-total refl (omega arith)
