-- ===== src/CollectSync/Service/Keeping/Device.antt =====
-- What the calls about the account, the status and the device keep.
use burnly.Prelude.{ℕ, Bool, true, false, Option, none, some, Result, ok, err, ◌==◌}
use burnly.Prelude.Text.{Text}
use burnly.Prelude.Int.{ℤ}
use burnly.CollectSync.Store.{CollectSyncAccountKey, CollectSyncState}
use burnly.CollectSync.Store.State.{load_state}
use burnly.CollectSync.Store.Keeping.Operations.{
  load_state-Preserves, ensure_state-Preserves, record_attempt-Preserves, set_device-Preserves,
}
use burnly.CollectSync.Service.{SyncDeviceSnapshot, CollectSyncRemoteError}
use burnly.CollectSync.Service.Ports.{CollectSync, World, transact}
use burnly.CollectSync.Service.Device.{
  account_key, snapshot_for, snapshot_if, status_snapshot, publish_status, register, after_upsert,
  register_if, force_device_register, register_unless, ensure_device_registered, record_attempt,
  map_remote_step_error,
}
use burnly.CollectSync.Service.Keeping.{
  IsStable, Keeps, bind-Keeps, call-Keeps, transact-Keeps, autocommit-Keeps,
}

module _ (service : CollectSync) (Q : World → Type 0) (stable : IsStable Q) where
  pub load_state-Keeps :
      (account : CollectSyncAccountKey)
      → Keeps Q (transact service (load_state service.libraries account))
  load_state-Keeps account =
      transact-Keeps service Q stable _ (λ row. load_state-Preserves service.libraries row account)

  pub account_key-Keeps : Keeps Q (account_key service)
  unfolding account_key
  account_key-Keeps = call-Keeps service Q stable _ _

  snapshot_for-Keeps :
      (account : Option CollectSyncAccountKey) → Keeps Q (snapshot_for service account)
  snapshot_for-Keeps none = λ world q. q
  snapshot_for-Keeps (some account) =
      bind-Keeps Q _ _ (load_state-Keeps account)
        (λ state. bind-Keeps Q _ _ (call-Keeps service Q stable _ _) (λ running world q. q))

  snapshot_if-Keeps : (signed_in : Bool) → Keeps Q (snapshot_if service signed_in)
  snapshot_if-Keeps false = λ world q. q
  snapshot_if-Keeps true = bind-Keeps Q _ _ account_key-Keeps snapshot_for-Keeps

  pub publish_status-Keeps : Keeps Q (publish_status service)
  unfolding publish_status status_snapshot
  publish_status-Keeps =
      bind-Keeps Q _ _ (bind-Keeps Q _ _ (call-Keeps service Q stable _ _) snapshot_if-Keeps)
        (λ snapshot. call-Keeps service Q stable _ _)

  pub register-Keeps :
      (account : CollectSyncAccountKey) (fingerprint : Text) (revision now_ms : ℤ)
      → Keeps Q (register service account fingerprint revision now_ms)
  register-Keeps account fingerprint revision now_ms =
      bind-Keeps Q _ _
        (autocommit-Keeps service Q stable _ _
          (λ row. ensure_state-Preserves service.libraries row account now_ms)
          (λ row. set_device-Preserves service.libraries row account fingerprint revision now_ms))
        (λ r world q. q)

  after_upsert-Keeps :
      (account : CollectSyncAccountKey) (now_ms : ℤ)
      (r : Result SyncDeviceSnapshot CollectSyncRemoteError)
      → Keeps Q (after_upsert service account now_ms r)
  after_upsert-Keeps account now_ms (ok snapshot) =
      bind-Keeps Q _ _ (register-Keeps account _ _ _) (λ _ world q. q)
  after_upsert-Keeps account now_ms (err e) = λ world q. q

  register_if-Keeps :
      (same : Bool) (account : CollectSyncAccountKey) (now_ms : ℤ)
      → Keeps Q (register_if service same account now_ms)
  register_if-Keeps false account now_ms = λ world q. q
  register_if-Keeps true account now_ms =
      bind-Keeps Q _ _ (call-Keeps service Q stable _ _) (after_upsert-Keeps account now_ms)

  pub force_register-Keeps :
      (account : CollectSyncAccountKey) (worker_epoch : ℕ) (now_ms : ℤ)
      → Keeps Q (force_device_register service account worker_epoch now_ms)
  unfolding force_device_register
  force_register-Keeps account worker_epoch now_ms =
      bind-Keeps Q _ _ (call-Keeps service Q stable _ _)
        (λ current. register_if-Keeps (current == worker_epoch) account now_ms)

  register_unless-Keeps :
      (registered : Bool) (account : CollectSyncAccountKey) (worker_epoch : ℕ) (now_ms : ℤ)
      → Keeps Q (register_unless service registered account worker_epoch now_ms)
  register_unless-Keeps true account worker_epoch now_ms = λ world q. q
  register_unless-Keeps false account worker_epoch now_ms =
      force_register-Keeps account worker_epoch now_ms

  pub ensure_device-Keeps :
      (account : CollectSyncAccountKey) (worker_epoch : ℕ) (state : CollectSyncState) (now_ms : ℤ)
      → Keeps Q (ensure_device_registered service account worker_epoch state now_ms)
  unfolding ensure_device_registered
  ensure_device-Keeps account worker_epoch state now_ms =
      register_unless-Keeps _ account worker_epoch now_ms

  pub record_attempt-Keeps :
      (account : CollectSyncAccountKey) (now_ms : ℤ) (code message : Option Text)
      (retryable : Option Bool)
      → Keeps Q (record_attempt service account now_ms code message retryable)
  record_attempt-Keeps account now_ms code message retryable =
      bind-Keeps Q _ _
        (autocommit-Keeps service Q stable _ _
          (λ row. ensure_state-Preserves service.libraries row account now_ms)
          (λ row.
            record_attempt-Preserves service.libraries row account now_ms code message retryable))
        (λ r world q. q)

  pub map_error-Keeps :
      (account : CollectSyncAccountKey) (now_ms : ℤ) (e : CollectSyncRemoteError)
      → Keeps Q (map_remote_step_error service account now_ms e)
  unfolding map_remote_step_error
  map_error-Keeps account now_ms e =
      bind-Keeps Q _ _ (record_attempt-Keeps account now_ms _ _ _)
        (λ _. bind-Keeps Q _ _ publish_status-Keeps (λ _ world q. q))
