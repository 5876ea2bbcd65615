-- ===== src/CollectSync/Service/Keeping/Accepted.antt =====
-- What the handling of an accepted batch keeps, apart from its `mark_batch_accepted`, and that of
-- a rejected one.
use burnly.Prelude.{ℕ, Bool, true, false, Option, none, some, Result, ok, err, ◌==◌}
use burnly.Prelude.Int.{ℤ}
use burnly.CollectSync.Store.{CollectSyncAccountKey, CollectSyncState, CollectSyncStoreError}
use burnly.CollectSync.Store.Keeping.Operations.{ensure_state-Preserves, mark_baseline-Preserves}
use burnly.CollectSync.Store.Outbox.{count_pending_batches}
use burnly.CollectSync.Store.Keeping.{select-Preserves, HasRow}
use burnly.CollectSync.Service.{CollectSyncRemoteError}
use burnly.CollectSync.Service.Ports.{CollectSync, World, transact}
use burnly.CollectSync.Service.Send.{
  complete_baseline, complete_baseline_if, complete_if_started, when_drained, after_count,
  after_register, recover_if, rejected,
}
use burnly.CollectSync.Service.Keeping.{
  IsStable, Keeps, bind-Keeps, transact-Keeps, autocommit-Keeps,
}
use burnly.CollectSync.Service.Keeping.Device.{
  load_state-Keeps, publish_status-Keeps, register-Keeps, force_register-Keeps,
  record_attempt-Keeps, map_error-Keeps,
}

module _ (service : CollectSync) (Q : World → Type 0) (stable : IsStable Q)
    (account : CollectSyncAccountKey) where
  complete_baseline-Keeps : (at : ℤ) → Keeps Q (complete_baseline service account at)
  complete_baseline-Keeps at =
      bind-Keeps Q _ _
        (autocommit-Keeps service Q stable _ _
          (λ row. ensure_state-Preserves service.libraries row account at)
          (λ row. mark_baseline-Preserves service.libraries row account at))
        (λ r world q. q)

  pub complete_if-Keeps :
      (missing : Bool) (at : ℤ) → Keeps Q (complete_baseline_if service missing account at)
  complete_if-Keeps true at = complete_baseline-Keeps at
  complete_if-Keeps false at = λ world q. q

  complete_started-Keeps :
      (at : ℤ) (state : Option CollectSyncState)
      → Keeps Q (complete_if_started service account at state)
  complete_started-Keeps at none = λ world q. q
  complete_started-Keeps at (some state) = complete_if-Keeps _ at

  drained-Keeps : (empty : Bool) (at : ℤ) → Keeps Q (when_drained service empty account at)
  drained-Keeps false at = λ world q. q
  drained-Keeps true at =
      bind-Keeps Q _ _ (load_state-Keeps service Q stable account)
        (λ r. complete_started-Keeps at _)

  pub after_count-Keeps :
      (at : ℤ) (r : Result ℕ CollectSyncStoreError) → Keeps Q (after_count service account at r)
  after_count-Keeps at (err e) = λ world q. q
  after_count-Keeps at (ok remaining) = bind-Keeps Q _ _ (drained-Keeps (remaining == 0) at) (λ _.
      bind-Keeps Q _ _ (record_attempt-Keeps service Q stable account at none none none)
        (λ _. bind-Keeps Q _ _ (publish_status-Keeps service Q stable) (λ _ world q. q)))

  pub count-Keeps : Keeps Q (transact service (count_pending_batches account))
  unfolding count_pending_batches
  count-Keeps = transact-Keeps service Q stable _ (λ row. select-Preserves (HasRow row) _)

  after_register-Keeps :
      (now_ms : ℤ) (r : Result Unit CollectSyncRemoteError)
      → Keeps Q (after_register service account now_ms r)
  after_register-Keeps now_ms (ok _) = λ world q. q
  after_register-Keeps now_ms (err e) = map_error-Keeps service Q stable account now_ms e

  recover-Keeps :
      (worker_epoch : ℕ) (now_ms : ℤ) (state : Option CollectSyncState)
      → Keeps Q (recover_if service account worker_epoch now_ms state)
  recover-Keeps worker_epoch now_ms none = λ world q. q
  recover-Keeps worker_epoch now_ms (some state) =
      bind-Keeps Q _ _ (register-Keeps service Q stable account _ _ _) (λ _.
        bind-Keeps Q _ _ (force_register-Keeps service Q stable account worker_epoch now_ms)
          (λ r. after_register-Keeps now_ms r))

  pub rejected-Keeps :
      (unknown : Bool) (worker_epoch : ℕ) (now_ms : ℤ) (e : CollectSyncRemoteError)
      → Keeps Q (rejected service unknown account worker_epoch now_ms e)
  rejected-Keeps true worker_epoch now_ms e =
      bind-Keeps Q _ _ (load_state-Keeps service Q stable account)
        (λ r. recover-Keeps worker_epoch now_ms _)
  rejected-Keeps false worker_epoch now_ms e = map_error-Keeps service Q stable account now_ms e
