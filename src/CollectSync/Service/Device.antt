-- ===== src/CollectSync/Service/Device.antt =====
-- The account, the status and the registration of the device in service.rs.
use burnly.Prelude.{
  ℕ, Bool, true, false, ◌&&◌, Option, none, some, ◌++◌, Result, ok, err, ◌==◌, is_empty,
  if◌then◌else◌,
}
use burnly.Prelude.Text.{Text, text, text_eq, trim}
use burnly.Prelude.Int.{ℤ, pos}
use burnly.CollectSync.Scope.{UploadScope}
use burnly.CollectSync.Batch.{BatchRequestMeta}
use burnly.CollectSync.Store.{CollectSyncAccountKey, CollectSyncState, CollectSyncStoreError}
use burnly.CollectSync.Store.State.{
  load_state, ensure_state, record_attempt_result, set_device_registration,
}
use burnly.CollectSync.Service.{
  CollectSyncStatusSnapshot, signed_out, idle, syncing, error, SyncDeviceSnapshot,
  UpsertSyncDeviceRequest, CollectSyncRemoteError, internal, StepResult, platform_str,
}
use burnly.CollectSync.Service.Errors.{classify_remote_error, saturating_add_ms}
use burnly.CollectSync.Service.Ports.{
  CollectSync, upserted, published, Exec, return, ◌>>=◌, ◌>>◌, call, observe, tell, transact,
  autocommit,
}

-- `.ok().flatten()`
abbrev pub flat : {A : Type 0} → Result (Option A) CollectSyncStoreError → Option A
flat (ok found) = found
flat (err e) = none

module _ (service : CollectSync) where
  open service use {config, libraries, sha256_hex, signed_in_user, running, epoch, upsert_device}

  -- The key of a signed-in user.
  abbrev pub key_of : Option Text → Option CollectSyncAccountKey
  key_of none = none
  key_of (some user_id) =
      let device_id = trim config.device_id in
      if is_empty device_id
      then none
      else some (record { user_id = user_id; client_device_id = device_id })

  unfoldable pub account_key : Exec (Option CollectSyncAccountKey)
  unfolding trim
  account_key = observe (λ calls. key_of (signed_in_user calls))

  abbrev pub signed_out_snapshot : CollectSyncStatusSnapshot
  signed_out_snapshot = record {
    status = signed_out;
    last_accepted_at_ms = none;
    last_error_code = none;
    last_error_message = none;
    last_error_retryable = none;
  }

  abbrev pub is_some : {A : Type 0} → Option A → Bool
  is_some none = false
  is_some (some _) = true

  abbrev pub status_without : Bool → CollectSyncStatusSnapshot
  status_without running = record {
    status = if running then syncing else idle;
    last_accepted_at_ms = none;
    last_error_code = none;
    last_error_message = none;
    last_error_retryable = none;
  }

  -- The status of the last lines of `status_snapshot`.
  abbrev pub status_of : Option CollectSyncState → Bool → CollectSyncStatusSnapshot
  status_of none running = status_without running
  status_of (some state) running = record {
    status = if running then syncing else if is_some state.last_error_code then error else idle;
    last_accepted_at_ms = state.last_accepted_at_ms;
    last_error_code = state.last_error_code;
    last_error_message = state.last_error_message;
    last_error_retryable = state.last_error_retryable;
  }

  abbrev pub snapshot_for : Option CollectSyncAccountKey → Exec CollectSyncStatusSnapshot
  snapshot_for none = return signed_out_snapshot
  snapshot_for (some account) = do
    state ← transact service (load_state libraries account)
    is_running ← observe running
    return (status_of (flat state) is_running)

  abbrev pub snapshot_if : Bool → Exec CollectSyncStatusSnapshot
  snapshot_if false = return signed_out_snapshot
  snapshot_if true = account_key >>= snapshot_for

  unfoldable pub status_snapshot : Exec CollectSyncStatusSnapshot
  status_snapshot = observe (λ calls. is_some (signed_in_user calls)) >>= snapshot_if

  unfoldable pub publish_status : Exec Unit
  publish_status = do snapshot ← status_snapshot; tell (published snapshot)

  unfoldable pub device_fingerprint : Text
  device_fingerprint = sha256_hex (
      config.device_name
      ++ (text "|"
          ++ (platform_str config.platform
              ++ (text "|" ++ (config.app_version ++ (text "|" ++ config.reporting_timezone))))))

  abbrev pub batch_meta : UploadScope → BatchRequestMeta
  batch_meta scope = record {
    client_device_id = config.device_id;
    app_version = config.app_version;
    reporting_timezone = config.reporting_timezone;
    scope = scope;
  }

  abbrev pub device_request : CollectSyncAccountKey → UpsertSyncDeviceRequest
  device_request account = record {
    expected_user_id = account.user_id;
    client_device_id = account.client_device_id;
    display_name = some config.device_name;
    platform = config.platform;
    app_version = config.app_version;
    reporting_timezone = config.reporting_timezone;
  }

  -- `set_device_registration` of the store, whose result the service ignores.
  abbrev pub register : CollectSyncAccountKey → Text → ℤ → ℤ → Exec Unit
  register account fingerprint revision now_ms =
      autocommit service (ensure_state libraries account now_ms)
        (set_device_registration libraries account fingerprint revision now_ms)
      >>= λ _. return tt

  abbrev pub after_upsert :
      CollectSyncAccountKey
      → ℤ
      → Result SyncDeviceSnapshot CollectSyncRemoteError
      → Exec (Result Unit CollectSyncRemoteError)
  after_upsert account now_ms (err e) = return (err e)
  after_upsert account now_ms (ok snapshot) = do
    register account device_fingerprint (pos 1) now_ms
    return (ok tt)

  abbrev pub register_if :
      Bool → CollectSyncAccountKey → ℤ → Exec (Result Unit CollectSyncRemoteError)
  register_if false account now_ms = return (err (internal (text "cancelled")))
  register_if true account now_ms =
      call
        (λ calls. upserted (device_request account) (upsert_device (device_request account) calls))
        (upsert_device (device_request account))
      >>= after_upsert account now_ms

  unfoldable pub force_device_register :
      CollectSyncAccountKey → ℕ → ℤ → Exec (Result Unit CollectSyncRemoteError)
  force_device_register account worker_epoch now_ms = do
    current ← observe epoch
    register_if (current == worker_epoch) account now_ms

  -- `state.device_metadata_fingerprint.as_deref() == Some(fingerprint.as_str())`
  abbrev pub is_fingerprint : Option Text → Bool
  is_fingerprint none = false
  is_fingerprint (some value) = text_eq value device_fingerprint

  abbrev pub register_unless :
      Bool → CollectSyncAccountKey → ℕ → ℤ → Exec (Result Unit CollectSyncRemoteError)
  register_unless true account worker_epoch now_ms = return (ok tt)
  register_unless false account worker_epoch now_ms =
      force_device_register account worker_epoch now_ms

  unfoldable pub ensure_device_registered :
      CollectSyncAccountKey → ℕ → CollectSyncState → ℤ → Exec (Result Unit CollectSyncRemoteError)
  ensure_device_registered account worker_epoch state now_ms =
      register_unless
        (is_fingerprint state.device_metadata_fingerprint
          && is_some state.device_registered_revision)
        account worker_epoch now_ms

  -- `record_attempt_result` of the store, whose result the service ignores.
  abbrev pub record_attempt :
      CollectSyncAccountKey → ℤ → Option Text → Option Text → Option Bool → Exec Unit
  record_attempt account now_ms code message retryable =
      autocommit service (ensure_state libraries account now_ms)
        (record_attempt_result libraries account now_ms code message retryable)
      >>= λ _. return tt

  unfoldable pub map_remote_step_error :
      CollectSyncAccountKey → ℤ → CollectSyncRemoteError → Exec StepResult
  map_remote_step_error account now_ms e = do
    let c = classify_remote_error e
    record_attempt account now_ms (some c.code) (some c.message) (some c.retryable)
    publish_status
    return (
        if c.retryable
        then StepResult.backoff (saturating_add_ms now_ms c.backoff_ms)
        else StepResult.terminal)
