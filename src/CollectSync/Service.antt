-- ===== src/CollectSync/Service.antt =====
-- The types of src-tauri/src/application/collect_sync/service.rs, and those of the ports
-- collect_sync_remote.rs and daily_usage_export_store.rs in application/ports.
pub mod Errors
pub mod Ports
pub mod Device
pub mod Materialize
pub mod Send
pub mod Step
pub mod Worker
pub mod Keeping
pub mod Delivery
mod Tests
use burnly.Prelude.{ℕ, Bool, Option, List, Result, ok, err}
use burnly.Prelude.Text.{Text, text}
use burnly.Prelude.Int.{ℤ}
use burnly.Domain.Identity.{NaiveDate}
use burnly.CollectSync.Scope.{UploadScope}
use burnly.CollectSync.Wire.{WireUploadScope}

pub data CollectSyncPlatform : Type 0 where
  linux macos windows : CollectSyncPlatform

-- `CollectSyncPlatform::as_str`
abbrev pub platform_str : CollectSyncPlatform → Text
platform_str linux = text "linux"
platform_str macos = text "macos"
platform_str windows = text "windows"

pub record UpsertSyncDeviceRequest : Type 0 where
  pub expected_user_id : Text
  pub client_device_id : Text
  pub display_name : Option Text
  pub platform : CollectSyncPlatform
  pub app_version : Text
  pub reporting_timezone : Text

pub record SyncDeviceSnapshot : Type 0 where
  pub client_device_id : Text
  pub display_name : Option Text
  pub platform : Text
  pub app_version : Text
  pub reporting_timezone : Text
  pub last_sync_at : Option Text
  pub created_at : Text
  pub updated_at : Text

pub record PushDailyUsageRequest : Type 0 where
  pub expected_user_id : Text
  pub request_body : Text
  pub idempotency_key : Text

pub record DailyUsagePushCounts : Type 0 where
  pub received : ℕ
  pub upserted : ℕ
  pub removed : ℕ
  pub unchanged : ℕ
  pub rejected : ℕ

pub record DailyUsagePushResult : Type 0 where
  pub client_device_id : Text
  pub accepted_at : Text
  pub client_revision : ℤ
  pub window_start : Text
  pub window_end : Text
  pub window_scope : WireUploadScope
  pub counts : DailyUsagePushCounts

pub record CollectSyncFieldError : Type 0 where
  pub field : Text
  pub code : Text
  pub message : Text

-- The arguments of each stand in the order of the source's fields.
pub data CollectSyncRemoteError : Type 0 where
  network timeout : Text → CollectSyncRemoteError
  unauthorized forbidden : Option Text → Text → CollectSyncRemoteError
  validation : Option Text → Text → List CollectSyncFieldError → CollectSyncRemoteError
  rate_limited : Option Text → Text → Option ℕ → CollectSyncRemoteError
  device_not_found contract_unsupported idempotency_in_progress : Text → CollectSyncRemoteError
  conflict : Option Text → Text → CollectSyncRemoteError
  payload_too_large : Text → CollectSyncRemoteError
  problem : Option Text → Option ℕ → Text → Option Text → CollectSyncRemoteError
  decode internal : Text → CollectSyncRemoteError

pub record DailyUsageExportQuery : Type 0 where
  pub scope : UploadScope
  pub reporting_timezone : Text

pub data DailyUsageExportStoreError : Type 0 where
  invalid_scope value_out_of_range backend : DailyUsageExportStoreError

pub data CollectSyncUiStatus : Type 0 where
  signed_out idle syncing error : CollectSyncUiStatus

pub record CollectSyncStatusSnapshot : Type 0 where
  pub status : CollectSyncUiStatus
  pub last_accepted_at_ms : Option ℤ
  pub last_error_code : Option Text
  pub last_error_message : Option Text
  pub last_error_retryable : Option Bool

pub record CollectSyncConfig : Type 0 where
  pub device_id : Text
  pub device_name : Text
  pub app_version : Text
  pub platform : CollectSyncPlatform
  pub reporting_timezone : Text

pub data StepResult : Type 0 where
  continue quiescent terminal store_failure stop : StepResult
  backoff : ℤ → StepResult

pub data WorkerExit : Type 0 where
  quiescent terminal store_failure stopped : WorkerExit
  backoff : ℤ → WorkerExit

pub data StepError : Type 0 where
  store cancelled : StepError
  remote : CollectSyncRemoteError → StepError
