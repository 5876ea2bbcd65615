-- ===== src/CollectSync/Store/Outbox.antt =====
-- The rows of `collect_sync_outbox` in collect_sync_store.rs.
use burnly.Prelude.{
  ℕ, ◌%◌, Bool, ◌&&◌, ◌||◌, not, Option, none, some, List, [], ◌∷◌, map, all, Result, ok, err, ◌==◌,
  leb, length, u32_max, if◌then◌else◌,
}
use burnly.Prelude.Text.{Text, text, text_eq}
use burnly.Prelude.Sort.{sort_by}
use burnly.Prelude.Int.{ℤ, same_ℤ, leb_ℤ}
use burnly.CollectSync.Wire.{WireUploadScope, full, incremental}
use burnly.CollectSync.Store.{
  CollectSyncAccountKey, OutboxBatchStatus, parse_outbox_status, OutboxBatch, CollectSyncStoreError,
  not_found, backend,
}
use burnly.CollectSync.Store.Tables.{OutboxRow, Tables, is_batch_of, batch_checks, update_state}
use burnly.CollectSync.Store.Transaction.{
  Transaction, return, ◌>>=◌, ◌>>◌, lift, or_throw, select, execute,
}

unfoldable pub keep : {A : Type 0} → (A → Bool) → List A → List A
keep p [] = []
keep p (x ∷ xs) = let rest = keep p xs in if p x then x ∷ rest else rest

-- `WHERE user_id = ? AND client_device_id = ? AND status = 'pending'`
unfoldable pub is_pending_of : CollectSyncAccountKey → OutboxRow → Bool
is_pending_of account row = is_batch_of account row && text_eq row.status (text "pending")

-- `ORDER BY client_revision ASC`
abbrev pub revision_le : OutboxRow → OutboxRow → Bool
revision_le row other = leb_ℤ row.client_revision other.client_revision

unfoldable pub sort_rows : List OutboxRow → List OutboxRow
unfolding sort_by
sort_rows rows = sort_by revision_le rows

abbrev pub parse_window_scope : Text → Option WireUploadScope
parse_window_scope value =
    if text_eq value (text "full")
    then some full
    else if text_eq value (text "incremental")
    then some incremental
    else none

abbrev pub batch_of :
    CollectSyncAccountKey
    → OutboxRow
    → Option WireUploadScope
    → Option OutboxBatchStatus
    → Result OutboxBatch CollectSyncStoreError
batch_of account row none _ = err backend
batch_of account row (some window_scope) none = err backend
batch_of account row (some window_scope) (some status) = ok (record {
  id = row.id;
  account = account;
  generation_id = row.generation_id;
  batch_index = row.batch_index % 4294967296;
  batch_count = row.batch_count % 4294967296;
  client_revision = row.client_revision;
  idempotency_key = row.idempotency_key;
  request_body = row.request_body;
  payload_hash = row.payload_hash;
  window_scope = window_scope;
  window_start = row.window_start;
  window_end = row.window_end;
  status = status;
  created_at_ms = row.created_at_ms;
  accepted_at_ms = row.accepted_at_ms;
})

unfoldable pub map_outbox_row :
    CollectSyncAccountKey → OutboxRow → Result OutboxBatch CollectSyncStoreError
map_outbox_row account row =
    batch_of account row (parse_window_scope row.window_scope) (parse_outbox_status row.status)

-- The loop of `list_pending_batches`: the batch of a row before those of the others.
abbrev pub push_batch :
    Result OutboxBatch CollectSyncStoreError
    → Result (List OutboxBatch) CollectSyncStoreError
    → Result (List OutboxBatch) CollectSyncStoreError
push_batch (err e) _ = err e
push_batch (ok batch) (err e) = err e
push_batch (ok batch) (ok batches) = ok (batch ∷ batches)

unfoldable pub map_rows :
    CollectSyncAccountKey → List OutboxRow → Result (List OutboxBatch) CollectSyncStoreError
map_rows account [] = ok []
map_rows account (row ∷ rows) = push_batch (map_outbox_row account row) (map_rows account rows)

unfoldable pub list_pending_batches : CollectSyncAccountKey → Transaction (List OutboxBatch)
list_pending_batches account =
    select (λ tables. map_rows account (sort_rows (keep (is_pending_of account) tables.outbox)))

unfoldable pub count_pending_batches : CollectSyncAccountKey → Transaction ℕ
count_pending_batches account = select (λ tables.
    let count = length (keep (is_pending_of account) tables.outbox) in
    if leb count u32_max then ok count else err backend)

-- `WHERE id = ? AND user_id = ? AND client_device_id = ?`
abbrev pub has_id : CollectSyncAccountKey → ℤ → OutboxRow → Bool
has_id account batch_id row = same_ℤ row.id batch_id && is_batch_of account row

abbrev pub read_first :
    CollectSyncAccountKey → List OutboxRow → Result (Option OutboxBatch) CollectSyncStoreError
read_first account [] = ok none
read_first account (row ∷ _) = elim (map_outbox_row account row) [
  | ok batch ↦ ok (some batch)
  | err e ↦ err e
]

unfoldable pub load_batch : CollectSyncAccountKey → ℤ → Transaction (Option OutboxBatch)
load_batch account batch_id =
    select (λ tables. read_first account (keep (has_id account batch_id) tables.outbox))

-- The rows that the first UPDATE of `mark_batch_accepted` changes, and how.
unfoldable pub is_to_accept : CollectSyncAccountKey → ℤ → OutboxRow → Bool
is_to_accept account batch_id row = same_ℤ row.id batch_id && is_pending_of account row

abbrev pub accepted_row : ℤ → OutboxRow → OutboxRow
accepted_row accepted_at_ms row = record row {
  status = text "accepted";
  accepted_at_ms = some accepted_at_ms;
}

-- `if updated != 1`
abbrev pub one_updated : ℕ → Transaction Unit
one_updated updated = lift (if updated == 1 then ok tt else err not_found)

-- The rows that its DELETE leaves.
unfoldable pub is_left : CollectSyncAccountKey → ℤ → OutboxRow → Bool
is_left account batch_id row =
    not (has_id account batch_id row && text_eq row.status (text "accepted"))

-- UPDATE collect_sync_outbox SET … WHERE …
abbrev pub change_batch : (OutboxRow → Bool) → (OutboxRow → OutboxRow) → OutboxRow → OutboxRow
change_batch which change row = if which row then change row else row

unfoldable pub update_outbox :
    (OutboxRow → Bool) → (OutboxRow → OutboxRow) → Tables → Result Tables CollectSyncStoreError
update_outbox which change tables =
    if all (λ row. not (which row) || batch_checks (change row)) tables.outbox
    then ok (record tables { outbox = map (change_batch which change) tables.outbox })
    else err backend

-- DELETE FROM collect_sync_outbox, where only the rows of a condition are left.
unfoldable pub delete_batches : (OutboxRow → Bool) → Tables → Result Tables CollectSyncStoreError
delete_batches left tables = ok (record tables { outbox = keep left tables.outbox })

unfoldable pub mark_batch_accepted : CollectSyncAccountKey → ℤ → ℤ → Transaction OutboxBatch
mark_batch_accepted account batch_id accepted_at_ms = do
  updated ← select (λ tables. ok (length (keep (is_to_accept account batch_id) tables.outbox)))
  execute (update_outbox (is_to_accept account batch_id) (accepted_row accepted_at_ms))
  one_updated updated
  left ← select (λ tables. ok (length (keep (is_pending_of account) tables.outbox)))
  execute (
      update_state account (λ row. record row {
        last_accepted_at_ms = some accepted_at_ms;
        active_generation_id = if left == 0 then none else row.active_generation_id;
        updated_at_ms = accepted_at_ms;
      }))
  found ← load_batch account batch_id
  batch ← or_throw found not_found
  execute (delete_batches (is_left account batch_id))
  return batch
