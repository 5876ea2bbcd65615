-- ===== src/CollectSync/Service/Delivery/Marking.antt =====
-- The pending batches under the acceptance of one.
use mathlib.Core.Path.{subst}
use burnly.Prelude.{◌≡◌, sym, ap, ◌∙◌, inl, inr, In, Result, ok, err, Bool-cases}
use burnly.Prelude.Int.{ℤ}
use burnly.CollectSync.Store.{CollectSyncAccountKey, CollectSyncStoreError, OutboxBatch}
use burnly.CollectSync.Store.Tables.{OutboxRow, Tables}
use burnly.CollectSync.Store.Outbox.{is_to_accept, mark_batch_accepted}
use burnly.CollectSync.Store.Keeping.{After, HasRow}
use burnly.CollectSync.Store.Keeping.Acceptance.{
  keep-one, mark_accepted-Preserves, mark_accepted-one,
}
use burnly.CollectSync.Service.{DailyUsagePushResult}
use burnly.CollectSync.Service.Ports.{
  pushed, stored, World, CollectSync, transact, transact_under, end, Fault, no_fault, rolled_back,
  half_done,
}
use burnly.CollectSync.Service.Send.{push_request}
use burnly.CollectSync.Service.Keeping.{IsStable}
use burnly.CollectSync.Service.Delivery.{
  row_request, IsAccepted, IsDelivered, IsPending, delivered-IsStable, IsBatchOf, push_request-eq,
  source-to_accept,
}

module _ (row : OutboxRow) {A : Type 0} where
  -- The end of a transaction that leaves the row.
  kept :
      (r : Result (A × Tables) CollectSyncStoreError) (world : World)
      → HasRow row world.tables
      → After (HasRow row) r
      → IsDelivered row (end world r).1
  unfolding After
  kept (ok (a, tables)) world i h = inl h
  kept (err e) world i h = inl i

  -- The end of a transaction, for a row that had been accepted before.
  accepted_before :
      (r : Result (A × Tables) CollectSyncStoreError) (world : World)
      → IsAccepted (row_request row) world.calls
      → IsDelivered row (end world r).1
  accepted_before (ok (a, tables)) world a' = inr (a'.0, inr a'.1)
  accepted_before (err e) world a' = inr (a'.0, inr a'.1)

  -- The end of a transaction that succeeds only if the row had been accepted.
  accepted_if :
      (P : Type 0) (r : Result (A × Tables) CollectSyncStoreError) (world : World)
      → HasRow row world.tables
      → After (λ _. P) r
      → (P → IsAccepted (row_request row) world.calls)
      → IsDelivered row (end world r).1
  unfolding After
  accepted_if P (ok (a, tables)) world i h k =
      let a' : IsAccepted (row_request row) world.calls = k h in inr (a'.0, inr a'.1)
  accepted_if P (err e) world i h k = inl i

module _ (service : CollectSync) (account : CollectSyncAccountKey) (batch : OutboxBatch)
    (source : OutboxRow) (origin : IsBatchOf account batch source) (at : ℤ) (row : OutboxRow)
    (pending : IsPending row) where
  -- The row is the source when it is accepted with it.
  same-IsAccepted :
      (world : World) (response : DailyUsagePushResult)
      → In (pushed (push_request account batch) (ok response)) world.calls
      → row ≡ source
      → IsAccepted (row_request row) world.calls
  same-IsAccepted world response i e = (
    response,
    subst (λ request. In (pushed request (ok response)) world.calls)
        (push_request-eq account batch source origin ∙ ap row_request (sym e)) i,
  )

  ended-Delivered :
      (world : World) (response : DailyUsagePushResult)
      → IsDelivered row world
      → HasRow source world.tables
      → In (pushed (push_request account batch) (ok response)) world.calls
      → IsDelivered row (end world (mark_batch_accepted account batch.id at world.tables)).1
  ended-Delivered world response (inr a) s p = accepted_before row _ world a
  ended-Delivered world response (inl i) s p =
      elim (Bool-cases (is_to_accept account batch.id row)) [
        | inl e ↦
            accepted_if row _ _ world i (mark_accepted-one account batch.id at world.tables) (λ one.
              same-IsAccepted world response p (
                keep-one (is_to_accept account batch.id) row source world.tables.outbox one i e s
                  (source-to_accept account batch source origin)))
        | inr e ↦
            kept row _ world i
              (mark_accepted-Preserves account batch.id at row e pending world.tables i)
      ]

  under-Delivered :
      (fault : Fault) (world : World) (response : DailyUsagePushResult)
      → IsDelivered row world
      → HasRow source world.tables
      → In (pushed (push_request account batch) (ok response)) world.calls
      → IsDelivered row
          (transact_under service fault (mark_batch_accepted account batch.id at) world).1
  under-Delivered no_fault world response d s p = ended-Delivered world response d s p
  under-Delivered rolled_back world response d s p =
      IsStable.under_call (delivered-IsStable row) stored world d
  under-Delivered half_done world response d s p =
      IsStable.under_call (delivered-IsStable row) stored world d

  pub mark-Delivered :
      (world : World) (response : DailyUsagePushResult)
      → IsDelivered row world
      → HasRow source world.tables
      → In (pushed (push_request account batch) (ok response)) world.calls
      → IsDelivered row (transact service (mark_batch_accepted account batch.id at) world).1
  unfolding transact
  mark-Delivered world response d s p = under-Delivered _ world response d s p
