-- ===== src/CollectSync/Store/Keeping/Operations.antt =====
-- The outbox under the operations of collect_sync_store.rs other than `mark_batch_accepted`.
use burnly.Prelude.{Bool, true, false, Option, none, some, List, [], ◌∷◌, ok}
use burnly.Prelude.Text.{Text}
use burnly.Prelude.Int.{ℤ}
use burnly.CollectSync.Scope.{UploadScope}
use burnly.CollectSync.Batch.{PreparedBatch}
use burnly.CollectSync.Store.{CollectSyncAccountKey, CollectSyncState, CreateGenerationInput}
use burnly.CollectSync.Store.Tables.{OutboxRow, Tables, Libraries, StateRow, update_state}
use burnly.CollectSync.Store.Transaction.{◌>>=◌, execute}
use burnly.CollectSync.Store.State.{
  load_state, loaded, or_insert, ensure_state, merge_pending_scope, record_attempt_result,
  mark_baseline_complete, set_device_registration,
}
use burnly.CollectSync.Store.Outbox.{list_pending_batches, count_pending_batches}
use burnly.CollectSync.Store.Generation.{
  insert_outbox_batch, insert_all, pending_json, create_generation,
}
use burnly.CollectSync.Store.Keeping.{
  Preserves, bind-Preserves, lift-Preserves, return-Preserves, or_throw-Preserves, select-Preserves,
  execute-Preserves, HasRow, insert_state-HasRow, update_state-HasRow, insert_batch-HasRow,
}

module _ (lib : Libraries) (row : OutboxRow) where
  abbrev Kept : Tables → Type 0
  Kept = HasRow row

  pub load_state-Preserves :
      (account : CollectSyncAccountKey) → Preserves (HasRow row) (load_state lib account)
  unfolding load_state
  load_state-Preserves account = select-Preserves Kept _

  loaded-Preserves : (account : CollectSyncAccountKey) → Preserves (HasRow row) (loaded lib account)
  loaded-Preserves account =
      bind-Preserves Kept _ _ (load_state-Preserves account)
        (λ found. or_throw-Preserves Kept found _)

  or_insert-Preserves :
      (account : CollectSyncAccountKey) (now_ms : ℤ) (found : Option CollectSyncState)
      → Preserves (HasRow row) (or_insert lib account now_ms found)
  or_insert-Preserves account now_ms none =
      bind-Preserves Kept _ _ (execute-Preserves Kept _ (insert_state-HasRow row _))
        (λ _. loaded-Preserves account)
  or_insert-Preserves account now_ms (some state) = lift-Preserves Kept (ok state)

  pub ensure_state-Preserves :
      (account : CollectSyncAccountKey) (now_ms : ℤ)
      → Preserves (HasRow row) (ensure_state lib account now_ms)
  unfolding ensure_state
  ensure_state-Preserves account now_ms =
      bind-Preserves Kept _ _ (load_state-Preserves account) (or_insert-Preserves account now_ms)

  update-Preserves :
      (account : CollectSyncAccountKey) (change : StateRow → StateRow)
      → Preserves (HasRow row) (execute (update_state account change))
  update-Preserves account change =
      execute-Preserves Kept _ (update_state-HasRow row account change)

  -- The shape of the operations that ensure the state and then update it.
  ensured-Preserves :
      (account : CollectSyncAccountKey) (now_ms : ℤ) (change : StateRow → StateRow)
      → Preserves
          (HasRow row)
          (ensure_state lib account now_ms >>= λ _. execute (update_state account change))
  ensured-Preserves account now_ms change =
      bind-Preserves Kept _ _ (ensure_state-Preserves account now_ms)
        (λ _. update-Preserves account change)

  pub record_attempt-Preserves :
      (account : CollectSyncAccountKey) (now_ms : ℤ) (code message : Option Text)
      (retryable : Option Bool)
      → Preserves (HasRow row) (record_attempt_result lib account now_ms code message retryable)
  unfolding record_attempt_result
  record_attempt-Preserves account now_ms code message retryable =
      ensured-Preserves account now_ms _

  pub mark_baseline-Preserves :
      (account : CollectSyncAccountKey) (now_ms : ℤ)
      → Preserves (HasRow row) (mark_baseline_complete lib account now_ms)
  unfolding mark_baseline_complete
  mark_baseline-Preserves account now_ms = ensured-Preserves account now_ms _

  pub set_device-Preserves :
      (account : CollectSyncAccountKey) (fingerprint : Text) (revision now_ms : ℤ)
      → Preserves (HasRow row) (set_device_registration lib account fingerprint revision now_ms)
  unfolding set_device_registration
  set_device-Preserves account fingerprint revision now_ms = ensured-Preserves account now_ms _

  pub merge_pending-Preserves :
      (account : CollectSyncAccountKey) (scope : UploadScope) (now_ms : ℤ)
      → Preserves (HasRow row) (merge_pending_scope lib account scope now_ms)
  unfolding merge_pending_scope
  merge_pending-Preserves account scope now_ms =
      bind-Preserves Kept _ _ (ensure_state-Preserves account now_ms) (λ _.
        bind-Preserves Kept _ _ (loaded-Preserves account) (λ current.
          bind-Preserves Kept _ _ (or_throw-Preserves Kept _ _) (λ json.
            bind-Preserves Kept _ _ (update-Preserves account _) (λ _. return-Preserves Kept _))))

  insert_all-Preserves :
      (account : CollectSyncAccountKey) (generation_id : Text) (now_ms : ℤ)
      (batches : List PreparedBatch)
      → Preserves (HasRow row) (insert_all lib account generation_id now_ms batches)
  unfolding insert_all insert_outbox_batch
  insert_all-Preserves account generation_id now_ms [] = lift-Preserves Kept (ok tt)
  insert_all-Preserves account generation_id now_ms (batch ∷ batches) =
      bind-Preserves Kept _ _
        (execute-Preserves Kept _ (λ tables. insert_batch-HasRow row _ tables))
        (λ _. insert_all-Preserves account generation_id now_ms batches)

  pending_json-Preserves :
      (clear : Bool) (pending : Option UploadScope)
      → Preserves (HasRow row) (pending_json lib clear pending)
  pending_json-Preserves true pending = lift-Preserves Kept (ok none)
  pending_json-Preserves false none = lift-Preserves Kept (ok none)
  pending_json-Preserves false (some scope) =
      bind-Preserves Kept _ _ (or_throw-Preserves Kept _ _) (λ json. lift-Preserves Kept (ok _))

  pub create_generation-Preserves :
      (input : CreateGenerationInput) → Preserves (HasRow row) (create_generation lib input)
  unfolding create_generation count_pending_batches list_pending_batches
  create_generation-Preserves input =
      bind-Preserves Kept _ _ (ensure_state-Preserves input.account input.now_ms) (λ _.
        bind-Preserves Kept _ _ (select-Preserves Kept _) (λ count.
          bind-Preserves Kept _ _ (lift-Preserves Kept _) (λ _.
            bind-Preserves Kept _ _ (loaded-Preserves input.account) (λ state.
              bind-Preserves Kept _ _ (lift-Preserves Kept _) (λ _.
                bind-Preserves Kept _ _ (insert_all-Preserves input.account _ _ _) (λ _.
                  bind-Preserves Kept _ _ (lift-Preserves Kept _) (λ next.
                    bind-Preserves Kept _ _ (pending_json-Preserves _ _) (λ json.
                      bind-Preserves Kept _ _ (update-Preserves input.account _) (λ _.
                        bind-Preserves Kept _ _ (select-Preserves Kept _) (λ batches.
                          bind-Preserves Kept _ _ (loaded-Preserves input.account)
                            (λ state'. return-Preserves Kept _)))))))))))
