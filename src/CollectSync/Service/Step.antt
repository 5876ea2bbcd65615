-- ===== src/CollectSync/Service/Step.antt =====
-- `step` of service.rs.
use burnly.Prelude.{
  ℕ, false, Option, none, some, List, [], ◌∷◌, Result, ok, err, if◌then◌else◌, zero, suc,
}
use burnly.Prelude.Int.{ℤ}
use burnly.CollectSync.Scope.{UploadScope, full}
use burnly.CollectSync.Store.{
  CollectSyncAccountKey, CollectSyncState, CollectSyncStoreError, OutboxBatch, needs_baseline,
}
use burnly.CollectSync.Store.State.{load_state, ensure_state}
use burnly.CollectSync.Store.Outbox.{list_pending_batches}
use burnly.CollectSync.Store.Generation.{create_generation}
use burnly.CollectSync.Service.{
  CollectSyncRemoteError, StepResult, StepError, store, cancelled, remote,
}
use burnly.CollectSync.Service.Ports.{CollectSync, Exec, return, ◌>>=◌, ◌>>◌, observe, transact}
use burnly.CollectSync.Service.Device.{
  ensure_device_registered, record_attempt, map_remote_step_error,
}
use burnly.CollectSync.Service.Materialize.{generation, materialize_generation}
use burnly.CollectSync.Service.Send.{complete_baseline_if, send_batch}

-- The scope to upload next: the pending one, or all as long as the baseline is missing.
abbrev pub next_scope : CollectSyncState → Option UploadScope
next_scope state = elim state.pending_scope [
  | some scope ↦ some scope
  | none ↦ if needs_baseline state.baseline_status then some full else none
]

module _ (service : CollectSync) where
  open service use {libraries, now_epoch_ms, new_uuid}

  -- The case `Ok(0)`: the pending scope is cleared, and the baseline is complete.
  abbrev pub when_empty : CollectSyncAccountKey → ℤ → CollectSyncState → Exec StepResult
  when_empty account now_ms state = do
    generation_id ← observe new_uuid
    _ ← transact service (
        create_generation libraries (generation service account generation_id full [] now_ms false))
    complete_baseline_if service (needs_baseline state.baseline_status) account now_ms
    record_attempt service account now_ms none none none
    return StepResult.continue

  abbrev pub after_materialize :
      CollectSyncAccountKey → ℤ → CollectSyncState → Result ℕ StepError → Exec StepResult
  after_materialize account now_ms state (ok zero) = when_empty account now_ms state
  after_materialize account now_ms state (ok (suc n)) = return StepResult.continue
  after_materialize account now_ms state (err store) = return StepResult.store_failure
  after_materialize account now_ms state (err (remote e)) =
      map_remote_step_error service account now_ms e
  after_materialize account now_ms state (err cancelled) = return StepResult.stop

  abbrev pub after_device :
      CollectSyncAccountKey
      → ℤ
      → CollectSyncState
      → UploadScope
      → Result Unit CollectSyncRemoteError
      → Exec StepResult
  after_device account now_ms state scope (err e) = map_remote_step_error service account now_ms e
  after_device account now_ms state scope (ok _) =
      materialize_generation service account scope now_ms >>= after_materialize account now_ms state

  abbrev pub for_scope :
      CollectSyncAccountKey → ℕ → ℤ → CollectSyncState → Option UploadScope → Exec StepResult
  for_scope account worker_epoch now_ms state none = return StepResult.quiescent
  for_scope account worker_epoch now_ms state (some scope) =
      ensure_device_registered service account worker_epoch state now_ms
      >>= after_device account now_ms state scope

  abbrev pub for_state :
      CollectSyncAccountKey
      → ℕ
      → ℤ
      → Result (Option CollectSyncState) CollectSyncStoreError
      → Exec StepResult
  for_state account worker_epoch now_ms (err e) = return StepResult.store_failure
  for_state account worker_epoch now_ms (ok none) =
      transact service (ensure_state libraries account now_ms) >>= λ _. return StepResult.continue
  for_state account worker_epoch now_ms (ok (some state)) =
      for_scope account worker_epoch now_ms state (next_scope state)

  abbrev pub for_pending :
      CollectSyncAccountKey
      → ℕ
      → ℤ
      → Result (List OutboxBatch) CollectSyncStoreError
      → Exec StepResult
  for_pending account worker_epoch now_ms (err e) = return StepResult.store_failure
  for_pending account worker_epoch now_ms (ok (batch ∷ _)) =
      send_batch service account worker_epoch batch
  for_pending account worker_epoch now_ms (ok []) =
      transact service (load_state libraries account) >>= for_state account worker_epoch now_ms

  unfoldable pub step : CollectSyncAccountKey → ℕ → Exec StepResult
  step account worker_epoch = do
    now_ms ← observe now_epoch_ms
    pending ← transact service (list_pending_batches account)
    for_pending account worker_epoch now_ms pending
