-- ===== src/CollectSync/Service/Delivery/Running.antt =====
-- The pending batches over `run_worker`.
use burnly.Prelude.{◌⊎◌, inl, ℕ, zero, suc, Bool, true, false, Option, none, some, ◌==◌}
use burnly.Prelude.Text.{Text}
use burnly.Prelude.Int.{ℤ}
use burnly.CollectSync.Store.{CollectSyncAccountKey}
use burnly.CollectSync.Store.Tables.{OutboxRow}
use burnly.CollectSync.Store.Keeping.{HasRow}
use burnly.CollectSync.Service.{StepResult, WorkerExit}
use burnly.CollectSync.Service.Ports.{World, CollectSync, Exec}
use burnly.CollectSync.Service.Worker.{
  active_key, key_if, is_stopped, account_key_matching_epoch, retry_ahead, after_step,
  unless_stopped, unless_waiting, for_key, enter, round, exit_or, run_rounds, run_worker,
}
use burnly.CollectSync.Service.Keeping.{IsStable, Keeps, bind-Keeps, call-Keeps}
use burnly.CollectSync.Service.Keeping.Device.{account_key-Keeps, publish_status-Keeps}
use burnly.CollectSync.Service.Delivery.{
  IsAccepted, row_request, IsDelivered, IsPending, delivered-IsStable,
}
use burnly.CollectSync.Service.Delivery.Steps.{step-Keeps}

module _ (service : CollectSync) (worker_epoch : ℕ) (row : OutboxRow)
    (pending : IsPending row) where
  abbrev Delivered : World → Type 0
  Delivered = IsDelivered row

  abbrev stable : IsStable (IsDelivered row)
  stable = delivered-IsStable row

  stopped-Keeps : Keeps Delivered (is_stopped service worker_epoch)
  unfolding is_stopped
  stopped-Keeps =
      bind-Keeps Delivered _ _ (call-Keeps service Delivered stable _ _)
        (λ c. bind-Keeps Delivered _ _ (call-Keeps service Delivered stable _ _) (λ e world d. d))

  active-Keeps :
      (key : Option CollectSyncAccountKey) (active : Option Text)
      → Keeps Delivered (active_key service worker_epoch key active)
  active-Keeps none active = λ world d. d
  active-Keeps (some key) none = λ world d. d
  active-Keeps (some key) (some active) = λ world d. d

  key_if-Keeps : (same : Bool) → Keeps Delivered (key_if service worker_epoch same)
  key_if-Keeps false = λ world d. d
  key_if-Keeps true =
      bind-Keeps Delivered _ _ (account_key-Keeps service Delivered stable) (λ key.
        bind-Keeps Delivered _ _ (call-Keeps service Delivered stable _ _) (active-Keeps key))

  after_step-Keeps :
      (result : StepResult) → Keeps Delivered (after_step service worker_epoch result)
  after_step-Keeps StepResult.continue = λ world d. d
  after_step-Keeps StepResult.quiescent = λ world d. d
  after_step-Keeps StepResult.terminal = λ world d. d
  after_step-Keeps StepResult.store_failure = λ world d. d
  after_step-Keeps StepResult.stop = λ world d. d
  after_step-Keeps (StepResult.backoff until_ms) =
      bind-Keeps Delivered _ _ (call-Keeps service Delivered stable _ _) (λ _ world d. d)

  unless_stopped-Keeps :
      (result : StepResult) (stopped : Bool)
      → Keeps Delivered (unless_stopped service worker_epoch result stopped)
  unless_stopped-Keeps result true = λ world d. d
  unless_stopped-Keeps result false = after_step-Keeps result

  waiting-Keeps :
      (account : CollectSyncAccountKey) (until : Option ℤ)
      → Keeps Delivered (unless_waiting service worker_epoch account until)
  waiting-Keeps account (some until_ms) = λ world d. d
  waiting-Keeps account none =
      bind-Keeps Delivered _ _ (step-Keeps service worker_epoch row pending account)
        (λ result. bind-Keeps Delivered _ _ stopped-Keeps (unless_stopped-Keeps result))

  for_key-Keeps :
      (key : Option CollectSyncAccountKey) → Keeps Delivered (for_key service worker_epoch key)
  for_key-Keeps none = λ world d. d
  for_key-Keeps (some account) =
      bind-Keeps Delivered _ _ (call-Keeps service Delivered stable _ _) (λ retry.
        bind-Keeps Delivered _ _ (call-Keeps service Delivered stable _ _)
          (λ now_ms. waiting-Keeps account (retry_ahead worker_epoch now_ms retry)))

  enter-Keeps : (stopped : Bool) → Keeps Delivered (enter service worker_epoch stopped)
  unfolding account_key_matching_epoch
  enter-Keeps true = λ world d. d
  enter-Keeps false =
      bind-Keeps Delivered _ _
        (bind-Keeps Delivered _ _ (call-Keeps service Delivered stable _ _)
          (λ current. key_if-Keeps (current == worker_epoch)))
        for_key-Keeps

  round-Keeps : Keeps Delivered (round service worker_epoch)
  unfolding round
  round-Keeps = bind-Keeps Delivered _ _ stopped-Keeps enter-Keeps

  exit_or-Keeps :
      (next : Exec (Option WorkerExit)) (exit : Option WorkerExit)
      → Keeps Delivered next
      → Keeps Delivered (exit_or service worker_epoch next exit)
  exit_or-Keeps next (some exit) k = λ world d. d
  exit_or-Keeps next none k = k

  rounds-Keeps : (rounds : ℕ) → Keeps Delivered (run_rounds service worker_epoch rounds)
  unfolding run_rounds
  rounds-Keeps zero = λ world d. d
  rounds-Keeps (suc rounds) =
      bind-Keeps Delivered _ _ round-Keeps (λ exit. exit_or-Keeps _ exit (rounds-Keeps rounds))

-- After any number of rounds of the worker's loop, each row that was in the outbox and not yet
-- accepted is still there unchanged, or the cloud accepted a push of the row's user, request body
-- and idempotency key. This is for all answers of the clock, the session, the cloud and the other
-- threads' fields, and all failures of SQLite.
pub run_worker-delivers :
    (service : CollectSync) (worker_epoch rounds : ℕ) (row : OutboxRow) (world : World)
    → IsPending row
    → HasRow row world.tables
    → HasRow row (run_worker service worker_epoch rounds world).1.tables
      ⊎ IsAccepted (row_request row) (run_worker service worker_epoch rounds world).1.calls
unfolding run_worker
run_worker-delivers service worker_epoch rounds row world p i =
    bind-Keeps (IsDelivered row) _ _
      (publish_status-Keeps service (IsDelivered row) (delivered-IsStable row))
      (λ _. rounds-Keeps service worker_epoch row p rounds) world (inl i)
