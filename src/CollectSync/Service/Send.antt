-- ===== src/CollectSync/Service/Send.antt =====
-- `send_batch` of service.rs.
use burnly.Prelude.{ℕ, Bool, true, false, ◌||◌, not, Option, none, some, Result, ok, err, ◌==◌}
use burnly.Prelude.Text.{text}
use burnly.Prelude.Int.{ℤ, pos}
use burnly.CollectSync.Store.{
  CollectSyncAccountKey, CollectSyncState, CollectSyncStoreError, OutboxBatch, same_account,
}
use burnly.CollectSync.Store.State.{load_state, ensure_state, mark_baseline_complete}
use burnly.CollectSync.Store.Outbox.{count_pending_batches, mark_batch_accepted}
use burnly.CollectSync.Service.{
  PushDailyUsageRequest, DailyUsagePushResult, CollectSyncRemoteError, device_not_found, StepResult,
}
use burnly.CollectSync.Service.Ports.{
  CollectSync, pushed, Exec, return, ◌>>=◌, ◌>>◌, call, observe, transact, autocommit,
}
use burnly.CollectSync.Service.Device.{
  account_key, publish_status, ensure_device_registered, force_device_register, record_attempt,
  register, map_remote_step_error, flat,
}
use burnly.CollectSync.Service.Materialize.{is_in_progress}

abbrev pub push_request : CollectSyncAccountKey → OutboxBatch → PushDailyUsageRequest
push_request account batch = record {
  expected_user_id = account.user_id;
  request_body = batch.request_body;
  idempotency_key = batch.idempotency_key;
}

module _ (service : CollectSync) where
  open service use {libraries, now_epoch_ms, cancel, epoch, push_daily_usage}

  -- `mark_baseline_complete` of the store, whose result the service ignores.
  abbrev pub complete_baseline : CollectSyncAccountKey → ℤ → Exec Unit
  complete_baseline account now_ms =
      autocommit service (ensure_state libraries account now_ms)
        (mark_baseline_complete libraries account now_ms)
      >>= λ _. return tt

  abbrev pub complete_baseline_if : Bool → CollectSyncAccountKey → ℤ → Exec Unit
  complete_baseline_if true account now_ms = complete_baseline account now_ms
  complete_baseline_if false account now_ms = return tt

  abbrev pub complete_if_started : CollectSyncAccountKey → ℤ → Option CollectSyncState → Exec Unit
  complete_if_started account accepted_at none = return tt
  complete_if_started account accepted_at (some state) =
      complete_baseline_if (is_in_progress state.baseline_status) account accepted_at

  -- What is done when no batch remains.
  abbrev pub when_drained : Bool → CollectSyncAccountKey → ℤ → Exec Unit
  when_drained false account accepted_at = return tt
  when_drained true account accepted_at = do
    state ← transact service (load_state libraries account)
    complete_if_started account accepted_at (flat state)

  abbrev pub after_count :
      CollectSyncAccountKey → ℤ → Result ℕ CollectSyncStoreError → Exec StepResult
  after_count account accepted_at (err e) = return StepResult.store_failure
  after_count account accepted_at (ok remaining) = do
    when_drained (remaining == 0) account accepted_at
    record_attempt service account accepted_at none none none
    publish_status service
    return StepResult.continue

  abbrev pub after_mark :
      CollectSyncAccountKey → ℤ → Result OutboxBatch CollectSyncStoreError → Exec StepResult
  after_mark account accepted_at (err e) = return StepResult.store_failure
  after_mark account accepted_at (ok _) =
      transact service (count_pending_batches account) >>= after_count account accepted_at

  -- The case `Ok(_result)` of the push.
  abbrev pub when_accepted : CollectSyncAccountKey → OutboxBatch → Exec StepResult
  when_accepted account batch = do
    accepted_at ← observe now_epoch_ms
    marked ← transact service (mark_batch_accepted account batch.id accepted_at)
    after_mark account accepted_at marked

  abbrev pub after_register :
      CollectSyncAccountKey → ℤ → Result Unit CollectSyncRemoteError → Exec StepResult
  after_register account now_ms (ok _) = return StepResult.continue
  after_register account now_ms (err e) = map_remote_step_error service account now_ms e

  abbrev pub recover_if : CollectSyncAccountKey → ℕ → ℤ → Option CollectSyncState → Exec StepResult
  recover_if account worker_epoch now_ms none = return StepResult.continue
  recover_if account worker_epoch now_ms (some state) = do
    register service account (text "invalidate") (pos 0) now_ms
    registered ← force_device_register service account worker_epoch now_ms
    after_register account now_ms registered

  -- The case `DeviceNotFound` of the push.
  abbrev pub recover_device : CollectSyncAccountKey → ℕ → ℤ → Exec StepResult
  recover_device account worker_epoch now_ms = do
    state ← transact service (load_state libraries account)
    recover_if account worker_epoch now_ms (flat state)

  abbrev pub is_device_not_found : CollectSyncRemoteError → Bool
  is_device_not_found (device_not_found _) = true
  is_device_not_found _ = false

  abbrev pub rejected :
      Bool → CollectSyncAccountKey → ℕ → ℤ → CollectSyncRemoteError → Exec StepResult
  rejected true account worker_epoch now_ms e = recover_device account worker_epoch now_ms
  rejected false account worker_epoch now_ms e = map_remote_step_error service account now_ms e

  abbrev pub after_push :
      CollectSyncAccountKey
      → ℕ
      → OutboxBatch
      → ℤ
      → Result DailyUsagePushResult CollectSyncRemoteError
      → Exec StepResult
  after_push account worker_epoch batch now_ms (ok _) = when_accepted account batch
  after_push account worker_epoch batch now_ms (err e) =
      rejected (is_device_not_found e) account worker_epoch now_ms e

  abbrev pub push_batch : CollectSyncAccountKey → ℕ → OutboxBatch → ℤ → Exec StepResult
  push_batch account worker_epoch batch now_ms =
      call
        (λ calls.
          pushed (push_request account batch) (push_daily_usage (push_request account batch) calls))
        (push_daily_usage (push_request account batch))
      >>= after_push account worker_epoch batch now_ms

  abbrev pub after_device :
      CollectSyncAccountKey
      → ℕ
      → OutboxBatch
      → ℤ
      → Result Unit CollectSyncRemoteError
      → Exec StepResult
  after_device account worker_epoch batch now_ms (err e) =
      map_remote_step_error service account now_ms e
  after_device account worker_epoch batch now_ms (ok _) =
      push_batch account worker_epoch batch now_ms

  abbrev pub with_state :
      CollectSyncAccountKey → ℕ → OutboxBatch → ℤ → Option CollectSyncState → Exec StepResult
  with_state account worker_epoch batch now_ms none = push_batch account worker_epoch batch now_ms
  with_state account worker_epoch batch now_ms (some state) =
      ensure_device_registered service account worker_epoch state now_ms
      >>= after_device account worker_epoch batch now_ms

  abbrev pub for_same_account : Bool → CollectSyncAccountKey → ℕ → OutboxBatch → Exec StepResult
  for_same_account false account worker_epoch batch = return StepResult.stop
  for_same_account true account worker_epoch batch = do
    now_ms ← observe now_epoch_ms
    state ← transact service (load_state libraries account)
    with_state account worker_epoch batch now_ms (flat state)

  abbrev pub for_account :
      CollectSyncAccountKey → ℕ → OutboxBatch → Option CollectSyncAccountKey → Exec StepResult
  for_account account worker_epoch batch none = return StepResult.stop
  for_account account worker_epoch batch (some current) =
      for_same_account (same_account current account) account worker_epoch batch

  abbrev pub unless_stopped : Bool → CollectSyncAccountKey → ℕ → OutboxBatch → Exec StepResult
  unless_stopped true account worker_epoch batch = return StepResult.stop
  unless_stopped false account worker_epoch batch =
      account_key service >>= for_account account worker_epoch batch

  unfoldable pub send_batch : CollectSyncAccountKey → ℕ → OutboxBatch → Exec StepResult
  send_batch account worker_epoch batch = do
    current ← observe epoch
    is_cancelled ← observe cancel
    unless_stopped (not (current == worker_epoch) || is_cancelled) account worker_epoch batch
