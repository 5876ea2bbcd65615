-- ===== src/CollectSync/Service/Ports.antt =====
-- What the worker of service.rs calls and reads: the ports, and the fields that other threads
-- write. What each call yields is a function of the calls before it, so other threads and the
-- cloud may do anything in between, except that the tables are written by the worker only.
use burnly.Prelude.{ℕ, Bool, Option, List, ◌∷◌, Result, ok, err}
use burnly.Prelude.Text.{Text}
use burnly.Prelude.Int.{ℤ}
use burnly.CollectSync.Wire.{DailyUsagePushRequestDto, ExportedDailyFact}
use burnly.CollectSync.Store.{CollectSyncStoreError, backend}
use burnly.CollectSync.Store.Tables.{Tables, Libraries}
use burnly.CollectSync.Store.Transaction.{Transaction}
use burnly.CollectSync.Service.{
  CollectSyncConfig, CollectSyncStatusSnapshot, UpsertSyncDeviceRequest, SyncDeviceSnapshot,
  PushDailyUsageRequest, DailyUsagePushResult, CollectSyncRemoteError, DailyUsageExportQuery,
  DailyUsageExportStoreError,
}

pub data Call : Type 0 where
  -- A clock, a session or a field was read, or a UUID drawn.
  observed : Call
  -- A transaction of the store ended.
  stored : Call
  upserted : UpsertSyncDeviceRequest → Result SyncDeviceSnapshot CollectSyncRemoteError → Call
  pushed : PushDailyUsageRequest → Result DailyUsagePushResult CollectSyncRemoteError → Call
  exported : DailyUsageExportQuery → Call
  published : CollectSyncStatusSnapshot → Call
  retry_set : ℕ → ℤ → Call

-- The latest call first.
abbrev pub History : Type 0
History = List Call

-- Whether SQLite fails during a transaction: not, before anything is committed, or between the
-- two statements of an operation without a transaction.
pub data Fault : Type 0 where
  no_fault rolled_back half_done : Fault

pub record CollectSync : Type 0 where
  pub config : CollectSyncConfig
  pub libraries : Libraries
  pub request_json : DailyUsagePushRequestDto → Option Text
  pub sha256_hex : Text → Text
  pub rfc3339 : ℤ → Option Text
  pub now_epoch_ms : History → ℤ
  pub signed_in_user : History → Option Text
  pub running : History → Bool
  pub cancel : History → Bool
  pub epoch : History → ℕ
  pub active_user_id : History → Option Text
  pub next_retry_not_before_ms : History → Option (ℕ × ℤ)
  pub new_uuid : History → Text
  pub batch_uuid : History → ℕ → Text
  pub fault : History → Fault
  pub upsert_device :
      UpsertSyncDeviceRequest → History → Result SyncDeviceSnapshot CollectSyncRemoteError
  pub push_daily_usage :
      PushDailyUsageRequest → History → Result DailyUsagePushResult CollectSyncRemoteError
  pub export_daily_facts :
      DailyUsageExportQuery → History → Result (List ExportedDailyFact) DailyUsageExportStoreError

pub record World : Type 0 where
  pub tables : Tables
  pub calls : History

abbrev pub Exec : Type 0 → Type 0
Exec A = World → A × World

abbrev pub return : {A : Type 0} → A → Exec A
return a world = (a, world)

infixl 5 ◌>>=◌ ◌>>◌
unfoldable pub ◌>>=◌ : {A B : Type 0} → Exec A → (A → Exec B) → Exec B
(m >>= f) world = f (m world).0 (m world).1

abbrev pub ◌>>◌ : {A B : Type 0} → Exec A → Exec B → Exec B
m >> n = m >>= λ _. n

-- A call is made, and its answer read off the calls before.
abbrev pub after_call : Call → World → World
after_call call world = record world { calls = call ∷ world.calls }

unfoldable pub call : {A : Type 0} → (History → Call) → (History → A) → Exec A
call made answer world = (answer world.calls, after_call (made world.calls) world)

abbrev pub observe : {A : Type 0} → (History → A) → Exec A
observe answer = call (λ _. observed) answer

abbrev pub tell : Call → Exec Unit
tell made = call (λ _. made) (λ _. tt)

-- The world once a transaction has ended, with the tables that it found.
abbrev pub end :
    {A : Type 0}
    → World
    → Result (A × Tables) CollectSyncStoreError
    → Result A CollectSyncStoreError × World
end world (ok (a, tables)) = (ok a, record { tables = tables; calls = stored ∷ world.calls })
end world (err e) = (err e, after_call stored world)

-- Only the tables that the first statement leaves are kept, and the operation fails.
abbrev pub fail_after :
    {A B : Type 0}
    → World
    → CollectSyncStoreError
    → Result (B × Tables) CollectSyncStoreError
    → Result A CollectSyncStoreError × World
fail_after world e (ok (b, tables)) =
    (err e, record { tables = tables; calls = stored ∷ world.calls })
fail_after world e (err _) = (err e, after_call stored world)

module _ (service : CollectSync) where
  open service use {fault}

  -- A transaction, which SQLite may fail.
  abbrev pub transact_under :
      {A : Type 0} → Fault → Transaction A → Exec (Result A CollectSyncStoreError)
  transact_under no_fault m world = end world (m world.tables)
  transact_under rolled_back m world = (err backend, after_call stored world)
  transact_under half_done m world = (err backend, after_call stored world)

  unfoldable pub transact : {A : Type 0} → Transaction A → Exec (Result A CollectSyncStoreError)
  transact m world = transact_under (fault world.calls) m world

  -- An operation whose first statement is committed even if its second fails.
  abbrev pub ended_or_first :
      {A B : Type 0}
      → World
      → Result (B × Tables) CollectSyncStoreError
      → Result (A × Tables) CollectSyncStoreError
      → Result A CollectSyncStoreError × World
  ended_or_first world first (ok (a, tables)) = end world (ok (a, tables))
  ended_or_first world first (err e) = fail_after world e first

  abbrev pub autocommit_under :
      {A B : Type 0} → Fault → Transaction B → Transaction A → Exec (Result A CollectSyncStoreError)
  autocommit_under no_fault first m world =
      ended_or_first world (first world.tables) (m world.tables)
  autocommit_under rolled_back first m world = (err backend, after_call stored world)
  autocommit_under half_done first m world = fail_after world backend (first world.tables)

  unfoldable pub autocommit :
      {A B : Type 0} → Transaction B → Transaction A → Exec (Result A CollectSyncStoreError)
  autocommit first m world = autocommit_under (fault world.calls) first m world
