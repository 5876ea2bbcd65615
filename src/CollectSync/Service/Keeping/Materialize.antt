-- ===== src/CollectSync/Service/Keeping/Materialize.antt =====
-- What materializing a generation keeps.
use burnly.Prelude.{ℕ, Option, none, some, List, Result, ok, err, length}
use burnly.Prelude.Int.{ℤ}
use burnly.CollectSync.Scope.{UploadScope}
use burnly.CollectSync.Wire.{DailyUsageFactDto, ExportedDailyFact, ExportMapError}
use burnly.CollectSync.Batch.{PreparedBatch, BatchBuildError}
use burnly.CollectSync.Store.{
  CollectSyncAccountKey, CollectSyncState, CollectSyncStoreError, CreateGenerationInput,
  CreateGenerationResult,
}
use burnly.CollectSync.Store.Generation.{create_generation}
use burnly.CollectSync.Store.Keeping.Operations.{create_generation-Preserves}
use burnly.CollectSync.Service.{DailyUsageExportQuery, DailyUsageExportStoreError, StepError}
use burnly.CollectSync.Service.Ports.{CollectSync, World, transact}
use burnly.CollectSync.Service.Materialize.{
  after_create, after_build, after_state, after_facts, after_export, after_query,
  materialize_generation,
}
use burnly.CollectSync.Service.Keeping.{IsStable, Keeps, bind-Keeps, call-Keeps, transact-Keeps}
use burnly.CollectSync.Service.Keeping.Device.{load_state-Keeps}

module _ (service : CollectSync) (Q : World → Type 0) (stable : IsStable Q) where
  pub create-Keeps :
      (input : CreateGenerationInput)
      → Keeps Q (transact service (create_generation service.libraries input))
  create-Keeps input =
      transact-Keeps service Q stable _
        (λ row. create_generation-Preserves service.libraries row input)

  after_create-Keeps :
      (count : ℕ) (r : Result CreateGenerationResult CollectSyncStoreError)
      → Keeps Q (after_create service count r)
  after_create-Keeps count (ok _) = λ world q. q
  after_create-Keeps count (err _) = λ world q. q

  module _ (account : CollectSyncAccountKey) (scope : UploadScope) (now_ms : ℤ) where
    after_build-Keeps :
        (state : CollectSyncState) (r : Option (Result (List PreparedBatch) BatchBuildError))
        → Keeps Q (after_build service account scope now_ms state r)
    after_build-Keeps state none = λ world q. q
    after_build-Keeps state (some (err e)) = λ world q. q
    after_build-Keeps state (some (ok prepared)) =
        bind-Keeps Q _ _ (call-Keeps service Q stable _ _)
          (λ id. bind-Keeps Q _ _ (create-Keeps _) (after_create-Keeps (length prepared)))

    after_state-Keeps :
        (facts : List DailyUsageFactDto)
        (r : Result (Option CollectSyncState) CollectSyncStoreError)
        → Keeps Q (after_state service account scope now_ms facts r)
    after_state-Keeps facts (err e) = λ world q. q
    after_state-Keeps facts (ok none) = λ world q. q
    after_state-Keeps facts (ok (some state)) =
        bind-Keeps Q _ _ (call-Keeps service Q stable _ _) (λ uuids. after_build-Keeps state _)

    after_facts-Keeps :
        (r : Result (List DailyUsageFactDto) ExportMapError)
        → Keeps Q (after_facts service account scope now_ms r)
    after_facts-Keeps (err e) = λ world q. q
    after_facts-Keeps (ok facts) =
        bind-Keeps Q _ _ (load_state-Keeps service Q stable account) (after_state-Keeps facts)

    after_export-Keeps :
        (r : Result (List ExportedDailyFact) DailyUsageExportStoreError)
        → Keeps Q (after_export service account scope now_ms r)
    after_export-Keeps (err e) = λ world q. q
    after_export-Keeps (ok facts) = after_facts-Keeps _

    after_query-Keeps :
        (r : Result DailyUsageExportQuery StepError)
        → Keeps Q (after_query service account scope now_ms r)
    after_query-Keeps (err e) = λ world q. q
    after_query-Keeps (ok query) =
        bind-Keeps Q _ _ (call-Keeps service Q stable _ _) after_export-Keeps

    pub materialize-Keeps : Keeps Q (materialize_generation service account scope now_ms)
    unfolding materialize_generation
    materialize-Keeps = after_query-Keeps _
