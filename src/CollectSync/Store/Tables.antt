-- ===== src/CollectSync/Store/Tables.antt =====
-- The two tables of src-tauri/migrations/0008_collect_sync.sql, and the statements on them.
use burnly.Prelude.{
  ℕ, Bool, ◌&&◌, ◌||◌, not, Option, none, some, List, [], ◌∷◌, ◌++◌, map, all, any, Result, ok, err,
  ◌==◌, ltb, is_empty, if◌then◌else◌,
}
use burnly.Prelude.Text.{Text, text, text_eq}
use burnly.Prelude.TextOrder.{text_le}
use burnly.Prelude.Int.{ℤ, pos, ltb_ℤ, leb_ℤ, same_ℤ}
use burnly.Prelude.Sql.{is_filled, is_date_shaped, is_null_or_from}
use burnly.Domain.Identity.{NaiveDate}
use burnly.CollectSync.Scope.{StoredUploadScope}
use burnly.CollectSync.Store.{CollectSyncAccountKey, CollectSyncStoreError, backend}

-- A row of `collect_sync_state`.
pub record StateRow : Type 0 where
  pub user_id : Text
  pub client_device_id : Text
  pub next_client_revision : ℤ
  pub baseline_status : Text
  pub pending_scope_json : Option Text
  pub active_generation_id : Option Text
  pub last_attempt_at_ms : Option ℤ
  pub last_accepted_at_ms : Option ℤ
  pub last_error_code : Option Text
  pub last_error_message : Option Text
  pub last_error_retryable : Option Bool
  pub device_metadata_fingerprint : Option Text
  pub device_registered_revision : Option ℤ
  pub created_at_ms : ℤ
  pub updated_at_ms : ℤ

-- A row of `collect_sync_outbox`.
pub record OutboxRow : Type 0 where
  pub id : ℤ
  pub user_id : Text
  pub client_device_id : Text
  pub generation_id : Text
  pub batch_index : ℕ
  pub batch_count : ℕ
  pub client_revision : ℤ
  pub idempotency_key : Text
  pub request_body : Text
  pub payload_hash : Text
  pub window_scope : Text
  pub window_start : Text
  pub window_end : Text
  pub status : Text
  pub created_at_ms : ℤ
  pub accepted_at_ms : Option ℤ

pub record Tables : Type 0 where
  pub states : List StateRow
  pub outbox : List OutboxRow

-- What the adapter takes from serde_json (which may refuse a text), chrono, and SQLite, which
-- chooses the id of a new row.
pub record Libraries : Type 0 where
  pub to_json : StoredUploadScope → Option Text
  pub from_json : Text → Option StoredUploadScope
  pub display : NaiveDate → Text
  pub parse : Text → Option NaiveDate
  pub fresh_id : List OutboxRow → ℤ

-- `WHERE user_id = ? AND client_device_id = ?`
unfoldable pub is_state_of : CollectSyncAccountKey → StateRow → Bool
is_state_of account row =
    text_eq row.user_id account.user_id && text_eq row.client_device_id account.client_device_id

unfoldable pub is_batch_of : CollectSyncAccountKey → OutboxRow → Bool
is_batch_of account row =
    text_eq row.user_id account.user_id && text_eq row.client_device_id account.client_device_id

-- The CHECK clauses of `collect_sync_state`. That of `last_error_retryable` holds of every Boolean.
unfoldable pub state_checks : StateRow → Bool
state_checks row =
    is_filled row.user_id
    && is_filled row.client_device_id
    && ltb_ℤ (pos 0) row.next_client_revision
    && any (text_eq row.baseline_status) (text "none" ∷ text "in_progress" ∷ text "complete" ∷ [])
    && is_null_or_from (pos 0) row.last_attempt_at_ms
    && is_null_or_from (pos 0) row.last_accepted_at_ms
    && is_null_or_from (pos 1) row.device_registered_revision
    && leb_ℤ (pos 0) row.created_at_ms
    && leb_ℤ row.created_at_ms row.updated_at_ms

-- Whether a status goes with the time of acceptance.
abbrev status_checks : Text → Option ℤ → Bool
status_checks status none = text_eq status (text "pending")
status_checks status (some _) = text_eq status (text "accepted")

-- The CHECK clauses of `collect_sync_outbox`.
unfoldable pub batch_checks : OutboxRow → Bool
batch_checks row =
    is_filled row.user_id
    && is_filled row.client_device_id
    && is_filled row.generation_id
    && ltb_ℤ (pos 0) row.client_revision
    && is_filled row.idempotency_key
    && not (is_empty row.request_body)
    && is_filled row.payload_hash
    && any (text_eq row.window_scope) (text "full" ∷ text "incremental" ∷ [])
    && is_date_shaped row.window_start
    && is_date_shaped row.window_end
    && leb_ℤ (pos 0) row.created_at_ms
    && is_null_or_from row.created_at_ms row.accepted_at_ms
    && status_checks row.status row.accepted_at_ms
    && ltb row.batch_index row.batch_count
    && text_le row.window_start row.window_end

-- The three UNIQUE constraints, between two rows.
unfoldable pub clashes : OutboxRow → OutboxRow → Bool
clashes row other =
    text_eq row.idempotency_key other.idempotency_key
    || (text_eq row.user_id other.user_id
        && text_eq row.client_device_id other.client_device_id
        && (same_ℤ row.client_revision other.client_revision
            || (text_eq row.generation_id other.generation_id
                && row.batch_index == other.batch_index)))

-- INSERT INTO collect_sync_outbox
unfoldable pub insert_batch : OutboxRow → Tables → Result Tables CollectSyncStoreError
insert_batch row tables =
    if batch_checks row && not (any (clashes row) tables.outbox)
    then ok (record { states = tables.states; outbox = tables.outbox ++ row ∷ [] })
    else err backend

-- INSERT INTO collect_sync_state
unfoldable pub insert_state : StateRow → Tables → Result Tables CollectSyncStoreError
insert_state row tables =
    if state_checks row
    then ok (record { states = tables.states ++ row ∷ []; outbox = tables.outbox })
    else err backend

-- UPDATE collect_sync_state SET … WHERE user_id = ? AND client_device_id = ?
abbrev pub change_state : CollectSyncAccountKey → (StateRow → StateRow) → StateRow → StateRow
change_state account change row = if is_state_of account row then change row else row

unfoldable pub update_state :
    CollectSyncAccountKey → (StateRow → StateRow) → Tables → Result Tables CollectSyncStoreError
update_state account change tables =
    if all (λ row. not (is_state_of account row) || state_checks (change row)) tables.states
    then ok (record tables { states = map (change_state account change) tables.states })
    else err backend
