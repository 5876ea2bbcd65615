-- ===== src/CollectSync/Service/Delivery/First.antt =====
-- The first batch that `list_pending_batches` lists.
use mathlib.Core.Path.{subst}
use burnly.Prelude.{◌≡◌, refl, inl, List, [], ◌∷◌, In, Result, ok, err, arith}
use burnly.Prelude.Sort.{sort_by-In}
use burnly.CollectSync.Store.{CollectSyncAccountKey, CollectSyncStoreError, OutboxBatch}
use burnly.CollectSync.Store.Tables.{OutboxRow, Tables}
use burnly.CollectSync.Store.Transaction.{lift, select}
use burnly.CollectSync.Store.Outbox.{
  keep, is_pending_of, revision_le, sort_rows, push_batch, map_outbox_row, map_rows,
  list_pending_batches,
}
use burnly.CollectSync.Store.Keeping.{HasRow}
use burnly.CollectSync.Store.Keeping.Acceptance.{keep-In}
use burnly.CollectSync.Service.Ports.{
  stored, World, CollectSync, transact, transact_under, end, Fault, no_fault, rolled_back,
  half_done,
}
use burnly.CollectSync.Service.Delivery.{
  IsDelivered, delivered-IsStable, IsBatchOf, mapped-IsBatchOf,
}
use burnly.CollectSync.Service.Keeping.{IsStable}

sort_rows-In : (x : OutboxRow) (rows : List OutboxRow) → In x (sort_rows rows) → In x rows
unfolding sort_rows
sort_rows-In x rows i = sort_by-In revision_le x rows i

push-first :
    (r : Result OutboxBatch CollectSyncStoreError)
    (rs : Result (List OutboxBatch) CollectSyncStoreError) (batch : OutboxBatch)
    (rest : List OutboxBatch)
    → push_batch r rs ≡ ok (batch ∷ rest)
    → r ≡ ok batch
push-first (err e) rs batch rest h = absurd (ground arith)
push-first (ok b) (err e) batch rest h = absurd (ground arith)
push-first (ok b) (ok bs) batch rest h = ground arith

-- The first of the listed batches comes from one of the rows.
mapped-first :
    (account : CollectSyncAccountKey) (rows : List OutboxRow) (batch : OutboxBatch)
    (rest : List OutboxBatch)
    → map_rows account rows ≡ ok (batch ∷ rest)
    → (source : OutboxRow) × In source rows × (map_outbox_row account source ≡ ok batch)
unfolding map_rows
mapped-first account [] batch rest h = absurd (ground arith)
mapped-first account (row ∷ rows) batch rest h =
    (row, inl refl, push-first _ (map_rows account rows) batch rest h)

-- The first batch of a list comes from a pending row of the account, which is in the outbox.
abbrev pub IsFirstOf :
    CollectSyncAccountKey → Result (List OutboxBatch) CollectSyncStoreError → World → Type 0
IsFirstOf account (err e) world = Unit
IsFirstOf account (ok []) world = Unit
IsFirstOf account (ok (batch ∷ _)) world =
    (source : OutboxRow) × HasRow source world.tables × IsBatchOf account batch source

module _ (account : CollectSyncAccountKey) where
  listed-IsFirstOf :
      (tables : Tables) (r : Result (List OutboxBatch) CollectSyncStoreError) (world : World)
      → map_rows account (sort_rows (keep (is_pending_of account) tables.outbox)) ≡ r
      → tables ≡ world.tables
      → IsFirstOf account r world
  listed-IsFirstOf tables (err e) world h t = tt
  listed-IsFirstOf tables (ok []) world h t = tt
  listed-IsFirstOf tables (ok (batch ∷ rest)) world h t =
      let first = mapped-first account _ batch rest h in
      let found =
        keep-In (is_pending_of account) first.0 tables.outbox (sort_rows-In first.0 _ first.1) in
      (
        first.0,
        subst (HasRow first.0) t found.0,
        mapped-IsBatchOf account first.0 batch found.1 first.2,
      )

  -- The answer of the transaction that lists the batches, and the world after it.
  abbrev pub IsListed : OutboxRow → Result (List OutboxBatch) CollectSyncStoreError → World → Type 0
  IsListed row r world = IsDelivered row world × IsFirstOf account r world

  ended-IsListed :
      (row : OutboxRow) (r : Result (List OutboxBatch) CollectSyncStoreError) (world : World)
      → map_rows account (sort_rows (keep (is_pending_of account) world.tables.outbox)) ≡ r
      → IsDelivered row world
      → IsListed row (end world (lift r world.tables)).0 (end world (lift r world.tables)).1
  unfolding lift
  ended-IsListed row (ok batches) world h d = (
    IsStable.under_call (delivered-IsStable row) stored world d,
    listed-IsFirstOf world.tables (ok batches) _ h refl,
  )
  ended-IsListed row (err e) world h d =
      (IsStable.under_call (delivered-IsStable row) stored world d, tt)

  module _ (service : CollectSync) (row : OutboxRow) where
    under-IsListed :
        (fault : Fault) (world : World)
        → IsDelivered row world
        → IsListed row
            (transact_under service fault (list_pending_batches account) world).0
            (transact_under service fault (list_pending_batches account) world).1
    unfolding list_pending_batches select
    under-IsListed no_fault world d = ended-IsListed row _ world refl d
    under-IsListed rolled_back world d =
        (IsStable.under_call (delivered-IsStable row) stored world d, tt)
    under-IsListed half_done world d =
        (IsStable.under_call (delivered-IsStable row) stored world d, tt)

    pub list-IsListed :
        (world : World)
        → IsDelivered row world
        → IsListed row
            (transact service (list_pending_batches account) world).0
            (transact service (list_pending_batches account) world).1
    unfolding transact
    list-IsListed world d = under-IsListed _ world d
