-- ===== src/CollectSync/Store/State.antt =====
-- The rows of `collect_sync_state` in collect_sync_store.rs.
use burnly.Prelude.{
  suc, ℕ, Bool, Option, none, some, List, [], ◌∷◌, Result, ok, err, to_option, if◌then◌else◌,
}
use burnly.Prelude.Text.{Text, text}
use burnly.Prelude.Int.{ℤ, pos}
use burnly.CollectSync.Scope.{UploadScope, merge_upload_scopes, to_stored, from_stored}
use burnly.CollectSync.Store.{
  CollectSyncAccountKey, BaselineStatus, baseline_str, parse_baseline, complete, CollectSyncState,
  CollectSyncStoreError, not_found, invalid_state, backend,
}
use burnly.CollectSync.Store.Tables.{StateRow, Libraries, is_state_of, insert_state, update_state}
use burnly.CollectSync.Store.Transaction.{
  Transaction, return, ◌>>=◌, ◌>>◌, or_throw, lift, select, execute,
}

-- The first row that the query yields.
abbrev pub find_row : CollectSyncAccountKey → List StateRow → Option StateRow
find_row account [] = none
find_row account (row ∷ rows) = if is_state_of account row then some row else find_row account rows

-- The row that `ensure_state` inserts.
abbrev pub new_row : CollectSyncAccountKey → ℤ → StateRow
new_row account now_ms = record {
  user_id = account.user_id;
  client_device_id = account.client_device_id;
  next_client_revision = pos 1;
  baseline_status = text "none";
  pending_scope_json = none;
  active_generation_id = none;
  last_attempt_at_ms = none;
  last_accepted_at_ms = none;
  last_error_code = none;
  last_error_message = none;
  last_error_retryable = none;
  device_metadata_fingerprint = none;
  device_registered_revision = none;
  created_at_ms = now_ms;
  updated_at_ms = now_ms;
}

module _ (lib : Libraries) where
  open lib use {to_json, from_json, display, parse}

  -- The pending scope of a row.
  abbrev pub read_scope : Option Text → Result (Option UploadScope) CollectSyncStoreError
  read_scope none = ok none
  read_scope (some json) = elim (from_json json) [
    | none ↦ err invalid_state
    | some stored ↦ elim (from_stored display parse stored) [
      | ok scope ↦ ok (some scope)
      | err _ ↦ err invalid_state
    ]
  ]

  -- `serde_json::to_string(&StoredUploadScope::from(&scope))`
  abbrev pub write_scope : UploadScope → Transaction Text
  write_scope scope = or_throw (to_json (to_stored display parse scope)) backend

  -- The state of a row.
  abbrev pub read_row :
      CollectSyncAccountKey
      → StateRow
      → Result (Option UploadScope) CollectSyncStoreError
      → Option BaselineStatus
      → Result CollectSyncState CollectSyncStoreError
  read_row account row (err e) _ = err e
  read_row account row (ok pending_scope) none = err invalid_state
  read_row account row (ok pending_scope) (some baseline_status) = ok (record {
    account = account;
    next_client_revision = row.next_client_revision;
    baseline_status = baseline_status;
    pending_scope = pending_scope;
    active_generation_id = row.active_generation_id;
    last_attempt_at_ms = row.last_attempt_at_ms;
    last_accepted_at_ms = row.last_accepted_at_ms;
    last_error_code = row.last_error_code;
    last_error_message = row.last_error_message;
    last_error_retryable = row.last_error_retryable;
    device_metadata_fingerprint = row.device_metadata_fingerprint;
    device_registered_revision = row.device_registered_revision;
  })

  abbrev pub some_state :
      Result CollectSyncState CollectSyncStoreError
      → Result (Option CollectSyncState) CollectSyncStoreError
  some_state (ok state) = ok (some state)
  some_state (err e) = err e

  abbrev pub read_found :
      CollectSyncAccountKey
      → Option StateRow
      → Result (Option CollectSyncState) CollectSyncStoreError
  read_found account none = ok none
  read_found account (some row) = some_state (
      read_row account row (read_scope row.pending_scope_json) (parse_baseline row.baseline_status))

  unfoldable pub load_state : CollectSyncAccountKey → Transaction (Option CollectSyncState)
  load_state account = select (λ tables. read_found account (find_row account tables.states))

  -- `load_state(…)?.ok_or(NotFound)?`
  abbrev pub loaded : CollectSyncAccountKey → Transaction CollectSyncState
  loaded account = load_state account >>= λ found. or_throw found not_found

  -- What `ensure_state` does when a row is found, and when none is.
  abbrev pub or_insert :
      CollectSyncAccountKey → ℤ → Option CollectSyncState → Transaction CollectSyncState
  or_insert account now_ms (some state) = lift (ok state)
  or_insert account now_ms none =
      execute (insert_state (new_row account now_ms)) >>= λ _. loaded account

  unfoldable pub ensure_state : CollectSyncAccountKey → ℤ → Transaction CollectSyncState
  ensure_state account now_ms = load_state account >>= or_insert account now_ms

  unfoldable pub merge_pending_scope :
      CollectSyncAccountKey → UploadScope → ℤ → Transaction UploadScope
  merge_pending_scope account scope now_ms = do
    _ ← ensure_state account now_ms
    current ← loaded account
    let merged = merge_upload_scopes current.pending_scope scope
    pending_json ← write_scope merged
    execute (
        update_state account
          (λ row. record row { pending_scope_json = some pending_json; updated_at_ms = now_ms }))
    return merged

  -- What a stored scope that cannot be read is taken for.
  abbrev scope_or_none : Option Text → Option UploadScope
  scope_or_none none = none
  scope_or_none (some json) = elim (from_json json) [
    | none ↦ none
    | some stored ↦ to_option (from_stored display parse stored)
  ]

  -- The loop of `merge_pending_scope_for_all_accounts`, with the count so far.
  pub merge_each : UploadScope → ℤ → List StateRow → ℕ → Transaction ℕ
  merge_each scope now_ms [] updated = return updated
  merge_each scope now_ms (row ∷ rows) updated = do
    json ← write_scope (merge_upload_scopes (scope_or_none row.pending_scope_json) scope)
    let account : CollectSyncAccountKey = record {
      user_id = row.user_id;
      client_device_id = row.client_device_id;
    }
    execute (
        update_state account
          (λ r. record r { pending_scope_json = some json; updated_at_ms = now_ms }))
    merge_each scope now_ms rows (suc updated)

  unfoldable pub merge_pending_scope_for_all_accounts : UploadScope → ℤ → Transaction ℕ
  unfolding merge_each
  merge_pending_scope_for_all_accounts scope now_ms = do
    rows ← select (λ tables. ok tables.states)
    merge_each scope now_ms rows 0

  unfoldable pub record_attempt_result :
      CollectSyncAccountKey → ℤ → Option Text → Option Text → Option Bool → Transaction Unit
  record_attempt_result account now_ms error_code error_message retryable = do
    _ ← ensure_state account now_ms
    execute (
        update_state account (λ row. record row {
          last_attempt_at_ms = some now_ms;
          last_error_code = error_code;
          last_error_message = error_message;
          last_error_retryable = retryable;
          updated_at_ms = now_ms;
        }))

  unfoldable pub mark_baseline_complete : CollectSyncAccountKey → ℤ → Transaction Unit
  mark_baseline_complete account now_ms = do
    _ ← ensure_state account now_ms
    execute (
        update_state account
          (λ row. record row { baseline_status = baseline_str complete; updated_at_ms = now_ms }))

  unfoldable pub set_device_registration : CollectSyncAccountKey → Text → ℤ → ℤ → Transaction Unit
  set_device_registration account fingerprint registered_revision now_ms = do
    _ ← ensure_state account now_ms
    execute (
        update_state account (λ row. record row {
          device_metadata_fingerprint = some fingerprint;
          device_registered_revision = some registered_revision;
          updated_at_ms = now_ms;
        }))
