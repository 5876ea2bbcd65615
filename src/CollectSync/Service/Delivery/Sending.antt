-- ===== src/CollectSync/Service/Delivery/Sending.antt =====
-- The pending batches over `send_batch`.
use burnly.Prelude.{refl, inl, inr, ℕ, Bool, true, false, Option, none, some, In, Result, ok, err}
use burnly.Prelude.Int.{ℤ}
use burnly.CollectSync.Store.{
  CollectSyncAccountKey, CollectSyncState, CollectSyncStoreError, OutboxBatch, same_account,
}
use burnly.CollectSync.Store.Tables.{OutboxRow}
use burnly.CollectSync.Store.Keeping.{HasRow}
use burnly.CollectSync.Service.{DailyUsagePushResult, CollectSyncRemoteError}
use burnly.CollectSync.Service.Ports.{pushed, World, CollectSync, call}
use burnly.CollectSync.Service.Device.{flat}
use burnly.CollectSync.Service.Send.{
  push_request, after_mark, when_accepted, after_push, push_batch, after_device, with_state,
  for_same_account, for_account, unless_stopped, send_batch,
}
use burnly.CollectSync.Service.Keeping.{IsStable, Keeps, bind-Keeps, bind-ends, call-Keeps}
use burnly.CollectSync.Service.Keeping.Device.{
  load_state-Keeps, account_key-Keeps, ensure_device-Keeps, map_error-Keeps,
}
use burnly.CollectSync.Service.Keeping.Accepted.{after_count-Keeps, count-Keeps, rejected-Keeps}
use burnly.CollectSync.Service.Delivery.{IsDelivered, IsPending, delivered-IsStable, IsBatchOf}
use burnly.CollectSync.Service.Delivery.Marking.{mark-Delivered}

module _ (service : CollectSync) (account : CollectSyncAccountKey) (worker_epoch : ℕ)
    (batch : OutboxBatch) (source : OutboxRow) (origin : IsBatchOf account batch source)
    (row : OutboxRow) (pending : IsPending row) where
  abbrev Delivered : World → Type 0
  Delivered = IsDelivered row

  abbrev stable : IsStable (IsDelivered row)
  stable = delivered-IsStable row

  -- That, while the source of the batch is in the outbox.
  abbrev Carries : World → Type 0
  Carries world = IsDelivered row world × HasRow source world.tables

  Carries-IsStable : IsStable Carries
  Carries-IsStable = record {
    under_call = λ made world c. (IsStable.under_call stable made world c.0, c.1);
    under_rows = λ tables world grows c.
        (IsStable.under_rows stable tables world grows c.0, grows source c.1);
  }

  -- That, once the batch has been pushed.
  abbrev Answered : Result DailyUsagePushResult CollectSyncRemoteError → World → Type 0
  Answered answer world =
      Carries world × In (pushed (push_request account batch) answer) world.calls

  Answered-IsStable :
      (answer : Result DailyUsagePushResult CollectSyncRemoteError) → IsStable (Answered answer)
  Answered-IsStable answer = record {
    under_call = λ made world c. (IsStable.under_call Carries-IsStable made world c.0, inr c.1);
    under_rows = λ tables world grows c.
        (IsStable.under_rows Carries-IsStable tables world grows c.0, inr c.1);
  }

  after_mark-Keeps :
      (at : ℤ) (r : Result OutboxBatch CollectSyncStoreError)
      → Keeps Delivered (after_mark service account at r)
  after_mark-Keeps at (err e) = λ world d. d
  after_mark-Keeps at (ok _) =
      bind-Keeps Delivered _ _ (count-Keeps service Delivered stable account)
        (after_count-Keeps service Delivered stable account at)

  accepted-Delivered :
      (response : DailyUsagePushResult) (world : World)
      → Answered (ok response) world
      → Delivered (when_accepted service account batch world).1
  accepted-Delivered response world c =
      bind-ends Delivered (λ _. Answered (ok response)) _ _ world
        (call-Keeps service _ (Answered-IsStable (ok response)) _ _ world c)
        (λ at world' c'.
          bind-ends Delivered (λ _. Delivered) _ _ world'
            (mark-Delivered service account batch source origin at row pending world' response
              c'.0.0 c'.0.1 c'.1)
            (λ r world'' d. after_mark-Keeps at r world'' d))

  push-Delivered :
      (now_ms : ℤ) (answer : Result DailyUsagePushResult CollectSyncRemoteError) (world : World)
      → Answered answer world
      → Delivered (after_push service account worker_epoch batch now_ms answer world).1
  push-Delivered now_ms (ok response) world c = accepted-Delivered response world c
  push-Delivered now_ms (err e) world c =
      rejected-Keeps service Delivered stable account _ worker_epoch now_ms e world c.0.0

  push_batch-Delivered :
      (now_ms : ℤ) (world : World)
      → Carries world
      → Delivered (push_batch service account worker_epoch batch now_ms world).1
  unfolding call
  push_batch-Delivered now_ms world c =
      bind-ends Delivered Answered _ _ world
        (IsStable.under_call Carries-IsStable _ world c, inl refl) (push-Delivered now_ms)

  device-Delivered :
      (now_ms : ℤ) (r : Result Unit CollectSyncRemoteError) (world : World)
      → Carries world
      → Delivered (after_device service account worker_epoch batch now_ms r world).1
  device-Delivered now_ms (ok _) world c = push_batch-Delivered now_ms world c
  device-Delivered now_ms (err e) world c =
      map_error-Keeps service Delivered stable account now_ms e world c.0

  state-Delivered :
      (now_ms : ℤ) (state : Option CollectSyncState) (world : World)
      → Carries world
      → Delivered (with_state service account worker_epoch batch now_ms state world).1
  state-Delivered now_ms none world c = push_batch-Delivered now_ms world c
  state-Delivered now_ms (some state) world c =
      bind-ends Delivered (λ _. Carries) _ _ world
        (ensure_device-Keeps service Carries Carries-IsStable account worker_epoch state now_ms
          world c)
        (device-Delivered now_ms)

  same-Delivered :
      (same : Bool) (world : World)
      → Carries world
      → Delivered (for_same_account service same account worker_epoch batch world).1
  same-Delivered false world c = c.0
  same-Delivered true world c =
      bind-ends Delivered (λ _. Carries) _ _ world
        (call-Keeps service Carries Carries-IsStable _ _ world c)
        (λ now_ms world' c'.
          bind-ends Delivered (λ _. Carries) _ _ world'
            (load_state-Keeps service Carries Carries-IsStable account world' c')
            (λ r. state-Delivered now_ms (flat r)))

  account-Delivered :
      (current : Option CollectSyncAccountKey) (world : World)
      → Carries world
      → Delivered (for_account service account worker_epoch batch current world).1
  account-Delivered none world c = c.0
  account-Delivered (some current) world c = same-Delivered (same_account current account) world c

  unless-Delivered :
      (stopped : Bool) (world : World)
      → Carries world
      → Delivered (unless_stopped service stopped account worker_epoch batch world).1
  unless-Delivered true world c = c.0
  unless-Delivered false world c =
      bind-ends Delivered (λ _. Carries) _ _ world
        (account_key-Keeps service Carries Carries-IsStable world c) account-Delivered

  pub send_batch-Delivered :
      (world : World)
      → IsDelivered row world
      → HasRow source world.tables
      → IsDelivered row (send_batch service account worker_epoch batch world).1
  unfolding send_batch
  send_batch-Delivered world d s =
      bind-ends Delivered (λ _. Carries) _ _ world
        (call-Keeps service Carries Carries-IsStable _ _ world (d, s))
        (λ current world' c'.
          bind-ends Delivered (λ _. Carries) _ _ world'
            (call-Keeps service Carries Carries-IsStable _ _ world' c')
            (λ cancelled. unless-Delivered _))
