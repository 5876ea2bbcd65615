-- ===== src/CollectSync/Store/Generation.antt =====
-- `create_generation` of collect_sync_store.rs.
use burnly.Prelude.{
  ℕ, suc, Bool, true, false, not, Option, none, some, List, [], ◌∷◌, Result, ok, err, ◌==◌, ltb,
  leb, length, i64_max, if◌then◌else◌,
}
use burnly.Prelude.Text.{Text, text}
use burnly.Prelude.Int.{ℤ, same_ℤ}
use burnly.CollectSync.Scope.{UploadScope}
use burnly.CollectSync.Wire.{WireUploadScope, full, incremental}
use burnly.CollectSync.Batch.{PreparedBatch, checked_add_i64}
use burnly.CollectSync.Store.{
  CollectSyncAccountKey, baseline_str, in_progress, CollectSyncStoreError, CreateGenerationInput,
  CreateGenerationResult, pending_generation_exists, revision_mismatch, invalid_state, backend,
}
use burnly.CollectSync.Store.Tables.{OutboxRow, Libraries, insert_batch, update_state}
use burnly.CollectSync.Store.Transaction.{Transaction, return, ◌>>=◌, ◌>>◌, lift, execute}
use burnly.CollectSync.Store.State.{ensure_state, loaded, write_scope}
use burnly.CollectSync.Store.Outbox.{count_pending_batches, list_pending_batches}

-- `first_revision.checked_add(i64::try_from(index)…)`, with its two errors.
unfoldable pub add_index : ℤ → ℕ → Result ℤ CollectSyncStoreError
add_index first_revision index =
    if leb index i64_max
    then elim (checked_add_i64 first_revision index) [ none ↦ err backend | some n ↦ ok n ]
    else err backend

-- One round of `validate_prepared_revisions`, before the result of the others.
abbrev pub validate_one :
    ℕ
    → PreparedBatch
    → Result ℤ CollectSyncStoreError
    → Result Unit CollectSyncStoreError
    → Result Unit CollectSyncStoreError
validate_one index batch (err e) rest = err e
validate_one index batch (ok expected) rest =
    if not (same_ℤ batch.client_revision expected)
    then err revision_mismatch
    else if not (batch.batch_index == index)
    then err invalid_state
    else rest

-- `validate_prepared_revisions`, from a given index on.
unfoldable pub validate_from : ℤ → ℕ → List PreparedBatch → Result Unit CollectSyncStoreError
validate_from first_revision index [] = ok tt
validate_from first_revision index (batch ∷ batches) =
    validate_one index batch (add_index first_revision index)
      (validate_from first_revision (suc index) batches)

abbrev pub wire_str : WireUploadScope → Text
wire_str full = text "full"
wire_str incremental = text "incremental"

-- The row that `insert_outbox_batch` inserts.
abbrev pub outbox_row : CollectSyncAccountKey → Text → ℤ → ℤ → PreparedBatch → OutboxRow
outbox_row account generation_id now_ms id batch = record {
  id = id;
  user_id = account.user_id;
  client_device_id = account.client_device_id;
  generation_id = generation_id;
  batch_index = batch.batch_index;
  batch_count = batch.batch_count;
  client_revision = batch.client_revision;
  idempotency_key = batch.idempotency_key;
  request_body = batch.request_body;
  payload_hash = batch.payload_hash;
  window_scope = wire_str batch.window_scope;
  window_start = batch.window_start;
  window_end = batch.window_end;
  status = text "pending";
  created_at_ms = now_ms;
  accepted_at_ms = none;
}

module _ (lib : Libraries) where
  open lib use {fresh_id}

  unfoldable pub insert_outbox_batch :
      CollectSyncAccountKey → Text → PreparedBatch → ℤ → Transaction Unit
  insert_outbox_batch account generation_id batch now_ms = execute (λ tables.
      insert_batch (outbox_row account generation_id now_ms (fresh_id tables.outbox) batch) tables)

  -- The loop over the prepared batches.
  unfoldable pub insert_all :
      CollectSyncAccountKey → Text → ℤ → List PreparedBatch → Transaction Unit
  insert_all account generation_id now_ms [] = lift (ok tt)
  insert_all account generation_id now_ms (batch ∷ batches) = do
    insert_outbox_batch account generation_id batch now_ms
    insert_all account generation_id now_ms batches

  -- `Some(pending_scope)`, or the column's NULL.
  abbrev pub pending_json : Bool → Option UploadScope → Transaction (Option Text)
  pending_json true _ = lift (ok none)
  pending_json false none = lift (ok none)
  pending_json false (some scope) = write_scope lib scope >>= λ json. lift (ok (some json))

  abbrev pub no_pending : ℕ → Transaction Unit
  no_pending count = lift (if ltb 0 count then err pending_generation_exists else ok tt)

  unfoldable pub create_generation : CreateGenerationInput → Transaction CreateGenerationResult
  create_generation input = do
    _ ← ensure_state lib input.account input.now_ms
    count ← count_pending_batches input.account
    no_pending count
    state ← loaded lib input.account
    lift (validate_from state.next_client_revision 0 input.prepared_batches)
    insert_all input.account input.generation_id input.now_ms input.prepared_batches
    next_revision ← lift (add_index state.next_client_revision (length input.prepared_batches))
    let baseline_status =
        if input.marks_baseline_in_progress then in_progress else state.baseline_status
    let active_generation_id =
        if length input.prepared_batches == 0 then none else some input.generation_id
    json ← pending_json input.clear_pending_scope state.pending_scope
    execute (
        update_state input.account (λ row. record row {
          next_client_revision = next_revision;
          baseline_status = baseline_str baseline_status;
          active_generation_id = active_generation_id;
          pending_scope_json = json;
          updated_at_ms = input.now_ms;
        }))
    batches ← list_pending_batches input.account
    state' ← loaded lib input.account
    return (record { state = state'; batches = batches })
