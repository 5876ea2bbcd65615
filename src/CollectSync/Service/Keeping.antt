-- ===== src/CollectSync/Service/Keeping.antt =====
-- What the worker's calls keep of the world.
pub mod Device
pub mod Materialize
pub mod Accepted
use mathlib.Core.Path.{subst}
use burnly.Prelude.{◌≡◌, refl, List, [], ◌∷◌, In, inr, Result, ok, err}
use burnly.CollectSync.Store.{CollectSyncStoreError}
use burnly.CollectSync.Store.Tables.{OutboxRow, Tables}
use burnly.CollectSync.Store.Transaction.{Transaction}
use burnly.CollectSync.Store.Keeping.{After, HasRow, Preserves}
use burnly.CollectSync.Service.Ports.{
  Call, stored, History, World, Fault, no_fault, rolled_back, half_done, CollectSync, Exec, return,
  ◌>>=◌, after_call, call, end, fail_after, ended_or_first, transact_under, transact,
  autocommit_under, autocommit,
}

-- No transaction of it removes a row of the outbox.
abbrev pub Grows : {A : Type 0} → Transaction A → Type 0
Grows m = (row : OutboxRow) → Preserves (HasRow row) m

-- A predicate that further calls and further rows of the outbox keep.
pub record IsStable (Q : World → Type 0) : Type 0 where
  pub under_call : (made : Call) (world : World) → Q world → Q (after_call made world)
  pub under_rows :
      (tables : Tables) (world : World)
      → ((row : OutboxRow) → HasRow row world.tables → HasRow row tables)
      → Q world
      → Q (record { tables = tables; calls = stored ∷ world.calls })

abbrev pub Keeps : {A : Type 0} → (World → Type 0) → Exec A → Type 0
Keeps Q m = (world : World) → Q world → Q (m world).1

module _ (Q : World → Type 0) where
  pub bind-Keeps :
      {A B : Type 0} (m : Exec A) (f : A → Exec B)
      → Keeps Q m
      → ((a : A) → Keeps Q (f a))
      → Keeps Q (m >>= f)
  unfolding ◌>>=◌
  bind-Keeps m f h k world q = k (m world).0 (m world).1 (h world q)

  -- The same, with a condition on the answer and the world in between.
  pub bind-ends :
      {A B : Type 0} (R : A → World → Type 0) (m : Exec A) (f : A → Exec B) (world : World)
      → R (m world).0 (m world).1
      → ((a : A) (world' : World) → R a world' → Q (f a world').1)
      → Q ((m >>= f) world).1
  unfolding ◌>>=◌
  bind-ends R m f world h k = k (m world).0 (m world).1 h

module _ (service : CollectSync) (Q : World → Type 0) (stable : IsStable Q) where
  open stable use {under_call, under_rows}

  pub call-Keeps :
      {A : Type 0} (made : History → Call) (answer : History → A) → Keeps Q (call made answer)
  unfolding call
  call-Keeps made answer world q = under_call (made world.calls) world q

  rows-After :
      {A : Type 0} (r : Result (A × Tables) CollectSyncStoreError) (world : World)
      → ((row : OutboxRow) → HasRow row world.tables → After (HasRow row) r)
      → Q world
      → Q (end world r).1
  unfolding After
  rows-After (ok (a, tables)) world h q = under_rows tables world h q
  rows-After (err e) world h q = under_call stored world q

  first-After :
      {B : Type 0} (A : Type 0) (e : CollectSyncStoreError)
      (r : Result (B × Tables) CollectSyncStoreError) (world : World)
      → ((row : OutboxRow) → HasRow row world.tables → After (HasRow row) r)
      → Q world
      → Q (fail_after {A = A} world e r).1
  unfolding After
  first-After A e (ok (b, tables)) world h q = under_rows tables world h q
  first-After A e (err _) world h q = under_call stored world q

  transact-under :
      {A : Type 0} (fault : Fault) (m : Transaction A)
      → Grows m
      → Keeps Q (transact_under service fault m)
  transact-under no_fault m h world q =
      rows-After (m world.tables) world (λ row i. h row world.tables i) q
  transact-under rolled_back m h world q = under_call stored world q
  transact-under half_done m h world q = under_call stored world q

  pub transact-Keeps : {A : Type 0} (m : Transaction A) → Grows m → Keeps Q (transact service m)
  unfolding transact
  transact-Keeps m h world q = transact-under _ m h world q

  either-After :
      {A B : Type 0} (first : Result (B × Tables) CollectSyncStoreError)
      (r : Result (A × Tables) CollectSyncStoreError) (world : World)
      → ((row : OutboxRow) → HasRow row world.tables → After (HasRow row) first)
      → ((row : OutboxRow) → HasRow row world.tables → After (HasRow row) r)
      → Q world
      → Q (ended_or_first service world first r).1
  either-After first (ok (a, tables)) world h k q = rows-After (ok (a, tables)) world k q
  either-After first (err e) world h k q = first-After _ e first world h q

  autocommit-under :
      {A B : Type 0} (fault : Fault) (first : Transaction B) (m : Transaction A)
      → Grows first
      → Grows m
      → Keeps Q (autocommit_under service fault first m)
  autocommit-under no_fault first m h k world q =
      either-After (first world.tables) (m world.tables) world (λ row i. h row world.tables i)
        (λ row i. k row world.tables i) q
  autocommit-under rolled_back first m h k world q = under_call stored world q
  autocommit-under half_done first m h k world q =
      first-After _ _ (first world.tables) world (λ row i. h row world.tables i) q

  pub autocommit-Keeps :
      {A B : Type 0} (first : Transaction B) (m : Transaction A)
      → Grows first
      → Grows m
      → Keeps Q (autocommit service first m)
  unfolding autocommit
  autocommit-Keeps first m h k world q = autocommit-under _ first m h k world q
