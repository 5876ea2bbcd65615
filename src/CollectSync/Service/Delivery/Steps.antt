-- ===== src/CollectSync/Service/Delivery/Steps.antt =====
-- The pending batches over `step`.
use burnly.Prelude.{ℕ, zero, suc, Option, none, some, List, [], ◌∷◌, Result, ok, err}
use burnly.Prelude.Int.{ℤ}
use burnly.CollectSync.Scope.{UploadScope}
use burnly.CollectSync.Store.{
  CollectSyncAccountKey, CollectSyncState, CollectSyncStoreError, OutboxBatch, needs_baseline,
}
use burnly.CollectSync.Store.Tables.{OutboxRow}
use burnly.CollectSync.Store.Keeping.Operations.{ensure_state-Preserves}
use burnly.CollectSync.Service.{CollectSyncRemoteError, StepError, store, cancelled, remote}
use burnly.CollectSync.Service.Ports.{World, CollectSync}
use burnly.CollectSync.Service.Step.{
  next_scope, when_empty, after_materialize, after_device, for_scope, for_state, for_pending, step,
}
use burnly.CollectSync.Service.Keeping.{
  IsStable, Keeps, bind-Keeps, bind-ends, call-Keeps, transact-Keeps,
}
use burnly.CollectSync.Service.Keeping.Device.{
  load_state-Keeps, ensure_device-Keeps, map_error-Keeps, record_attempt-Keeps,
}
use burnly.CollectSync.Service.Keeping.Materialize.{create-Keeps, materialize-Keeps}
use burnly.CollectSync.Service.Keeping.Accepted.{complete_if-Keeps}
use burnly.CollectSync.Service.Delivery.{IsDelivered, IsPending, delivered-IsStable}
use burnly.CollectSync.Service.Delivery.First.{IsListed, list-IsListed}
use burnly.CollectSync.Service.Delivery.Sending.{send_batch-Delivered}

module _ (service : CollectSync) (worker_epoch : ℕ) (row : OutboxRow)
    (pending : IsPending row) where
  abbrev Delivered : World → Type 0
  Delivered = IsDelivered row

  abbrev stable : IsStable (IsDelivered row)
  stable = delivered-IsStable row

  module _ (account : CollectSyncAccountKey) where
    empty-Keeps :
        (now_ms : ℤ) (state : CollectSyncState)
        → Keeps Delivered (when_empty service account now_ms state)
    empty-Keeps now_ms state =
        bind-Keeps Delivered _ _ (call-Keeps service Delivered stable _ _) (λ id.
          bind-Keeps Delivered _ _ (create-Keeps service Delivered stable _) (λ r.
            bind-Keeps Delivered _ _
              (complete_if-Keeps service Delivered stable account
                (needs_baseline state.baseline_status) now_ms)
              (λ _.
                bind-Keeps Delivered _ _
                  (record_attempt-Keeps service Delivered stable account now_ms none none none)
                  (λ _ world d. d))))

    materialized-Keeps :
        (now_ms : ℤ) (state : CollectSyncState) (r : Result ℕ StepError)
        → Keeps Delivered (after_materialize service account now_ms state r)
    materialized-Keeps now_ms state (ok zero) = empty-Keeps now_ms state
    materialized-Keeps now_ms state (ok (suc n)) = λ world d. d
    materialized-Keeps now_ms state (err store) = λ world d. d
    materialized-Keeps now_ms state (err cancelled) = λ world d. d
    materialized-Keeps now_ms state (err (remote e)) =
        map_error-Keeps service Delivered stable account now_ms e

    device-Keeps :
        (now_ms : ℤ) (state : CollectSyncState) (scope : UploadScope)
        (r : Result Unit CollectSyncRemoteError)
        → Keeps Delivered (after_device service account now_ms state scope r)
    device-Keeps now_ms state scope (err e) =
        map_error-Keeps service Delivered stable account now_ms e
    device-Keeps now_ms state scope (ok _) =
        bind-Keeps Delivered _ _ (materialize-Keeps service Delivered stable account scope now_ms)
          (materialized-Keeps now_ms state)

    scope-Keeps :
        (now_ms : ℤ) (state : CollectSyncState) (scope : Option UploadScope)
        → Keeps Delivered (for_scope service account worker_epoch now_ms state scope)
    scope-Keeps now_ms state none = λ world d. d
    scope-Keeps now_ms state (some scope) =
        bind-Keeps Delivered _ _
          (ensure_device-Keeps service Delivered stable account worker_epoch state now_ms)
          (device-Keeps now_ms state scope)

    state-Keeps :
        (now_ms : ℤ) (r : Result (Option CollectSyncState) CollectSyncStoreError)
        → Keeps Delivered (for_state service account worker_epoch now_ms r)
    state-Keeps now_ms (err e) = λ world d. d
    state-Keeps now_ms (ok none) =
        bind-Keeps Delivered _ _
          (transact-Keeps service Delivered stable _
            (λ r. ensure_state-Preserves service.libraries r account now_ms))
          (λ r world d. d)
    state-Keeps now_ms (ok (some state)) = scope-Keeps now_ms state (next_scope state)

    pending-Delivered :
        (now_ms : ℤ) (r : Result (List OutboxBatch) CollectSyncStoreError) (world : World)
        → IsListed account row r world
        → Delivered (for_pending service account worker_epoch now_ms r world).1
    pending-Delivered now_ms (err e) world l = l.0
    pending-Delivered now_ms (ok []) world l =
        bind-Keeps Delivered _ _ (load_state-Keeps service Delivered stable account)
          (state-Keeps now_ms) world l.0
    pending-Delivered now_ms (ok (batch ∷ _)) world (d, (source, i, origin)) =
        send_batch-Delivered service account worker_epoch batch source origin row pending world d i

    pub step-Keeps : Keeps Delivered (step service account worker_epoch)
    unfolding step
    step-Keeps =
        bind-Keeps Delivered _ _ (call-Keeps service Delivered stable _ _) (λ now_ms world d.
          bind-ends Delivered (IsListed account row) _ _ world
            (list-IsListed account service row world d) (pending-Delivered now_ms))
