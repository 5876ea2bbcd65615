-- ===== src/CollectSync/Store.antt =====
-- The port src-tauri/src/application/ports/collect_sync_store.rs; the children model its SQLite
-- adapter src-tauri/src/infrastructure/database/collect_sync_store.rs.
pub mod Tables
pub mod Transaction
pub mod State
pub mod Outbox
pub mod Generation
pub mod Keeping
pub mod Registration
use burnly.Prelude.{ℕ, Bool, true, false, ◌&&◌, Option, none, some, List, if◌then◌else◌}
use burnly.Prelude.Text.{Text, text, text_eq}
use burnly.Prelude.Int.{ℤ}
use burnly.CollectSync.Scope.{UploadScope}
use burnly.CollectSync.Wire.{WireUploadScope}
use burnly.CollectSync.Batch.{BatchRequestMeta, PreparedBatch}

pub record CollectSyncAccountKey : Type 0 where
  pub user_id : Text
  pub client_device_id : Text

-- `==` of two keys.
unfoldable pub same_account : CollectSyncAccountKey → CollectSyncAccountKey → Bool
same_account a b = text_eq a.user_id b.user_id && text_eq a.client_device_id b.client_device_id

pub data BaselineStatus : Type 0 where
  not_started in_progress complete : BaselineStatus

-- `BaselineStatus::as_str`
abbrev pub baseline_str : BaselineStatus → Text
baseline_str not_started = text "none"
baseline_str in_progress = text "in_progress"
baseline_str complete = text "complete"

-- `BaselineStatus::parse`
unfoldable pub parse_baseline : Text → Option BaselineStatus
parse_baseline value =
    if text_eq value (text "none")
    then some not_started
    else if text_eq value (text "in_progress")
    then some in_progress
    else if text_eq value (text "complete")
    then some complete
    else none

-- `matches!(status, BaselineStatus::None | BaselineStatus::InProgress)`
abbrev pub needs_baseline : BaselineStatus → Bool
needs_baseline not_started = true
needs_baseline in_progress = true
needs_baseline complete = false

pub record CollectSyncState : Type 0 where
  pub account : CollectSyncAccountKey
  pub next_client_revision : ℤ
  pub baseline_status : BaselineStatus
  pub pending_scope : Option UploadScope
  pub active_generation_id : Option Text
  pub last_attempt_at_ms : Option ℤ
  pub last_accepted_at_ms : Option ℤ
  pub last_error_code : Option Text
  pub last_error_message : Option Text
  pub last_error_retryable : Option Bool
  pub device_metadata_fingerprint : Option Text
  pub device_registered_revision : Option ℤ

pub data OutboxBatchStatus : Type 0 where
  pending accepted : OutboxBatchStatus

-- `OutboxBatchStatus::parse`
unfoldable pub parse_outbox_status : Text → Option OutboxBatchStatus
parse_outbox_status value =
    if text_eq value (text "pending")
    then some pending
    else if text_eq value (text "accepted")
    then some accepted
    else none

pub record OutboxBatch : Type 0 where
  pub id : ℤ
  pub account : CollectSyncAccountKey
  pub generation_id : Text
  pub batch_index : ℕ
  pub batch_count : ℕ
  pub client_revision : ℤ
  pub idempotency_key : Text
  pub request_body : Text
  pub payload_hash : Text
  pub window_scope : WireUploadScope
  pub window_start : Text
  pub window_end : Text
  pub status : OutboxBatchStatus
  pub created_at_ms : ℤ
  pub accepted_at_ms : Option ℤ

pub record CreateGenerationInput : Type 0 where
  pub account : CollectSyncAccountKey
  pub generation_id : Text
  pub meta : BatchRequestMeta
  pub prepared_batches : List PreparedBatch
  pub now_ms : ℤ
  pub marks_baseline_in_progress : Bool
  pub clear_pending_scope : Bool

pub record CreateGenerationResult : Type 0 where
  pub state : CollectSyncState
  pub batches : List OutboxBatch

-- The cause of `BatchBuild` is left out: no code of the adapter makes one.
pub data CollectSyncStoreError : Type 0 where
  not_found pending_generation_exists revision_mismatch invalid_state backend :
      CollectSyncStoreError
