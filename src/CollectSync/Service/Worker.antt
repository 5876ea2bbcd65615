-- ===== src/CollectSync/Service/Worker.antt =====
-- `account_key_matching_epoch` and `run_worker` of service.rs.
use burnly.Prelude.{
  ℕ, zero, suc, Bool, true, false, ◌&&◌, ◌||◌, not, Option, none, some, ◌==◌, if◌then◌else◌,
}
use burnly.Prelude.Text.{Text, text_eq}
use burnly.Prelude.Int.{ℤ, ltb_ℤ}
use burnly.CollectSync.Store.{CollectSyncAccountKey}
use burnly.CollectSync.Service.{StepResult, WorkerExit}
use burnly.CollectSync.Service.Ports.{
  CollectSync, retry_set, Exec, return, ◌>>=◌, ◌>>◌, observe, tell,
}
use burnly.CollectSync.Service.Device.{account_key, publish_status}
use burnly.CollectSync.Service.Step.{step}

-- `Some(until)` of a retry of this epoch that lies ahead.
unfoldable pub retry_ahead : ℕ → ℤ → Option (ℕ × ℤ) → Option ℤ
retry_ahead epoch now_ms none = none
retry_ahead epoch now_ms (some (retry_epoch, until)) =
    if retry_epoch == epoch && ltb_ℤ now_ms until then some until else none

module _ (service : CollectSync) (worker_epoch : ℕ) where
  open service use {now_epoch_ms, cancel, epoch, active_user_id, next_retry_not_before_ms}

  -- `self.cancel.load(…) || self.epoch.load(…) != epoch`
  unfoldable pub is_stopped : Exec Bool
  is_stopped = do
    is_cancelled ← observe cancel
    current ← observe epoch
    return (is_cancelled || not (current == worker_epoch))

  abbrev pub active_key :
      Option CollectSyncAccountKey → Option Text → Exec (Option CollectSyncAccountKey)
  active_key none _ = return none
  active_key (some key) none = return none
  active_key (some key) (some active) =
      return (if text_eq active key.user_id then some key else none)

  abbrev pub key_if : Bool → Exec (Option CollectSyncAccountKey)
  key_if false = return none
  key_if true = do key ← account_key service; active ← observe active_user_id; active_key key active

  unfoldable pub account_key_matching_epoch : Exec (Option CollectSyncAccountKey)
  account_key_matching_epoch = do current ← observe epoch; key_if (current == worker_epoch)

  -- How the loop goes on after a step that was not stopped; `none` is the next round.
  abbrev pub after_step : StepResult → Exec (Option WorkerExit)
  after_step StepResult.continue = return none
  after_step StepResult.quiescent = return (some WorkerExit.quiescent)
  after_step (StepResult.backoff until_ms) = do
    tell (retry_set worker_epoch until_ms)
    return (some (WorkerExit.backoff until_ms))
  after_step StepResult.terminal = return (some WorkerExit.terminal)
  after_step StepResult.store_failure = return (some WorkerExit.store_failure)
  after_step StepResult.stop = return (some WorkerExit.stopped)

  abbrev pub unless_stopped : StepResult → Bool → Exec (Option WorkerExit)
  unless_stopped result true = return (some WorkerExit.stopped)
  unless_stopped result false = after_step result

  abbrev pub unless_waiting : CollectSyncAccountKey → Option ℤ → Exec (Option WorkerExit)
  unless_waiting account (some until_ms) = return (some (WorkerExit.backoff until_ms))
  unless_waiting account none = do
    result ← step service account worker_epoch
    stopped ← is_stopped
    unless_stopped result stopped

  abbrev pub for_key : Option CollectSyncAccountKey → Exec (Option WorkerExit)
  for_key none = return (some WorkerExit.stopped)
  for_key (some account) = do
    retry ← observe next_retry_not_before_ms
    now_ms ← observe now_epoch_ms
    unless_waiting account (retry_ahead worker_epoch now_ms retry)

  abbrev pub enter : Bool → Exec (Option WorkerExit)
  enter true = return (some WorkerExit.stopped)
  enter false = account_key_matching_epoch >>= for_key

  -- One round of the loop.
  unfoldable pub round : Exec (Option WorkerExit)
  round = is_stopped >>= enter

  -- The exit, or what follows.
  abbrev pub exit_or : Exec (Option WorkerExit) → Option WorkerExit → Exec (Option WorkerExit)
  exit_or next (some exit) = return (some exit)
  exit_or next none = next

  -- The loop, with a bound on the rounds: `none` when there are more.
  unfoldable pub run_rounds : ℕ → Exec (Option WorkerExit)
  run_rounds zero = return none
  run_rounds (suc rounds) = round >>= exit_or (run_rounds rounds)

  unfoldable pub run_worker : ℕ → Exec (Option WorkerExit)
  run_worker rounds = do publish_status service; run_rounds rounds
