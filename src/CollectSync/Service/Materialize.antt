-- ===== src/CollectSync/Service/Materialize.antt =====
-- `materialize_generation` of service.rs.
use burnly.Prelude.{
  ℕ, Bool, true, false, ◌&&◌, Option, none, some, List, [], ◌∷◌, Result, ok, err, length,
}
use burnly.Prelude.Text.{Text}
use burnly.Prelude.Int.{ℤ}
use burnly.CollectSync.Scope.{UploadScope, full, incremental, scope_incremental}
use burnly.CollectSync.Wire.{
  DailyUsageFactDto, ExportedDailyFact, ExportMapError, map_exported_fact,
}
use burnly.CollectSync.Batch.{PreparedBatch, BatchBuildError, backend_v1, build_prepared_batches}
use burnly.CollectSync.Store.{
  CollectSyncAccountKey, CollectSyncState, CollectSyncStoreError, needs_baseline, BaselineStatus,
  in_progress, not_started, complete, CreateGenerationInput, CreateGenerationResult,
}
use burnly.CollectSync.Store.State.{load_state}
use burnly.CollectSync.Store.Generation.{create_generation}
use burnly.CollectSync.Service.{DailyUsageExportQuery, DailyUsageExportStoreError, StepError, store}
use burnly.CollectSync.Service.Ports.{
  CollectSync, exported, Exec, return, ◌>>=◌, call, observe, transact,
}
use burnly.CollectSync.Service.Device.{batch_meta}

-- `DailyUsageExportQuery::incremental` and `full`, by the scope.
unfoldable pub export_query : Text → UploadScope → Result DailyUsageExportQuery StepError
export_query timezone full = ok (record { scope = full; reporting_timezone = timezone })
export_query timezone (incremental source_keys start_date end_date) =
    elim (scope_incremental source_keys start_date end_date) [
      | ok scope ↦ ok (record { scope = scope; reporting_timezone = timezone })
      | err _ ↦ err store
    ]

-- `.map(map_exported_fact).collect::<Result<Vec<_>, _>>()`
unfoldable pub map_facts :
    (ℤ → Option Text) → List ExportedDailyFact → Result (List DailyUsageFactDto) ExportMapError
map_facts rfc3339 [] = ok []
map_facts rfc3339 (fact ∷ facts) = elim (map_exported_fact rfc3339 fact) [
  | err e ↦ err e
  | ok dto ↦ elim (map_facts rfc3339 facts) [ err e ↦ err e | ok dtos ↦ ok (dto ∷ dtos) ]
]

abbrev is_full : UploadScope → Bool
is_full full = true
is_full (incremental _ _ _) = false

abbrev pub is_in_progress : BaselineStatus → Bool
is_in_progress in_progress = true
is_in_progress not_started = false
is_in_progress complete = false

module _ (service : CollectSync) where
  open service use {
    config, libraries, request_json, sha256_hex, rfc3339, now_epoch_ms, cancel, epoch, new_uuid,
    batch_uuid, push_daily_usage, export_daily_facts,
  }

  abbrev pub generation :
      CollectSyncAccountKey
      → Text
      → UploadScope
      → List PreparedBatch
      → ℤ
      → Bool
      → CreateGenerationInput
  generation account generation_id scope batches now_ms marks_baseline = record {
    account = account;
    generation_id = generation_id;
    meta = batch_meta service scope;
    prepared_batches = batches;
    now_ms = now_ms;
    marks_baseline_in_progress = marks_baseline;
    clear_pending_scope = true;
  }

  abbrev pub after_create :
      ℕ → Result CreateGenerationResult CollectSyncStoreError → Exec (Result ℕ StepError)
  after_create count (ok _) = return (ok count)
  after_create count (err _) = return (err store)

  -- The last part of `materialize_generation`. The size of `backend_v1` is not 0, so the batches
  -- are always there.
  abbrev pub after_build :
      CollectSyncAccountKey
      → UploadScope
      → ℤ
      → CollectSyncState
      → Option (Result (List PreparedBatch) BatchBuildError)
      → Exec (Result ℕ StepError)
  after_build account scope now_ms state none = return (err store)
  after_build account scope now_ms state (some (err e)) = return (err store)
  after_build account scope now_ms state (some (ok prepared)) = do
    generation_id ← observe new_uuid
    created ← transact service (
        create_generation libraries (
          generation account generation_id scope prepared now_ms
            (needs_baseline state.baseline_status && is_full scope)))
    after_create (length prepared) created

  abbrev pub after_state :
      CollectSyncAccountKey
      → UploadScope
      → ℤ
      → List DailyUsageFactDto
      → Result (Option CollectSyncState) CollectSyncStoreError
      → Exec (Result ℕ StepError)
  after_state account scope now_ms facts (err e) = return (err store)
  after_state account scope now_ms facts (ok none) = return (err store)
  after_state account scope now_ms facts (ok (some state)) = do
    uuids ← observe batch_uuid
    after_build account scope now_ms state (
        build_prepared_batches request_json sha256_hex uuids (batch_meta service scope)
          state.next_client_revision facts backend_v1)

  abbrev pub after_facts :
      CollectSyncAccountKey
      → UploadScope
      → ℤ
      → Result (List DailyUsageFactDto) ExportMapError
      → Exec (Result ℕ StepError)
  after_facts account scope now_ms (err e) = return (err store)
  after_facts account scope now_ms (ok facts) =
      transact service (load_state libraries account) >>= after_state account scope now_ms facts

  abbrev pub after_export :
      CollectSyncAccountKey
      → UploadScope
      → ℤ
      → Result (List ExportedDailyFact) DailyUsageExportStoreError
      → Exec (Result ℕ StepError)
  after_export account scope now_ms (err e) = return (err store)
  after_export account scope now_ms (ok facts) =
      after_facts account scope now_ms (map_facts rfc3339 facts)

  abbrev pub after_query :
      CollectSyncAccountKey
      → UploadScope
      → ℤ
      → Result DailyUsageExportQuery StepError
      → Exec (Result ℕ StepError)
  after_query account scope now_ms (err e) = return (err e)
  after_query account scope now_ms (ok query) =
      call (λ _. exported query) (export_daily_facts query) >>= after_export account scope now_ms

  unfoldable pub materialize_generation :
      CollectSyncAccountKey → UploadScope → ℤ → Exec (Result ℕ StepError)
  materialize_generation account scope now_ms =
      after_query account scope now_ms (export_query config.reporting_timezone scope)
