-- ===== src/CollectSync/Lifecycle.antt =====
-- The fields of `CollectSync` that several threads write, `kick`, and the end of a worker, in
-- src-tauri/src/application/collect_sync/service.rs.
pub mod Threads
pub mod Handlers
mod Tests
use burnly.Prelude.{
  ℕ, ◌+◌, ◌%◌, Bool, true, false, ◌&&◌, ◌||◌, not, Option, none, some, List, [], ◌∷◌, ◌==◌, u64_max,
  if◌then◌else◌,
}
use burnly.Prelude.Text.{Text}
use burnly.Prelude.Int.{ℤ, ltb_ℤ}
use burnly.CollectSync.Service.{WorkerExit}

pub record Fields : Type 0 where
  pub running : Bool
  pub cancel : Bool
  pub terminal_blocked_epoch : ℕ
  pub epoch : ℕ
  pub active_user_id : Option Text
  pub next_retry_not_before_ms : Option (ℕ × ℤ)

-- `CollectSync::new`
abbrev pub new_fields : Fields
new_fields = record {
  running = false;
  cancel = false;
  terminal_blocked_epoch = u64_max;
  epoch = 0;
  active_user_id = none;
  next_retry_not_before_ms = none;
}

-- One store of a field; `running` is not among them.
pub data Write : Type 0 where
  set_user : Option Text → Write
  set_cancel : Bool → Write
  set_blocked : ℕ → Write
  bump_epoch : Write
  set_retry : Option (ℕ × ℤ) → Write

unfoldable pub write : Write → Fields → Fields
write (set_user user) fields = record fields { active_user_id = user }
write (set_cancel cancelled) fields = record fields { cancel = cancelled }
write (set_blocked blocked) fields = record fields { terminal_blocked_epoch = blocked }
write bump_epoch fields = record fields { epoch = (fields.epoch + 1) % 18446744073709551616 }
write (set_retry retry) fields = record fields { next_retry_not_before_ms = retry }

-- Several stores, one after the other.
unfoldable pub write_all : List Write → Fields → Fields
write_all [] fields = fields
write_all (w ∷ ws) fields = write_all ws (write w fields)

-- The stores of `on_signed_in`, `on_signed_out` and `retry_now`.
abbrev pub signed_in_writes : Text → List Write
signed_in_writes user_id =
    set_user (some user_id)
    ∷ set_cancel false
    ∷ set_blocked u64_max
    ∷ bump_epoch
    ∷ set_retry none
    ∷ []

abbrev pub signed_out_writes : List Write
signed_out_writes = set_cancel true ∷ bump_epoch ∷ set_user none ∷ set_retry none ∷ []

abbrev pub retry_now_writes : List Write
retry_now_writes = set_blocked u64_max ∷ set_retry none ∷ []

-- `next_retry_not_before_ms` holds a retry of this epoch that lies ahead.
abbrev pub is_waiting : ℕ → ℤ → Option (ℕ × ℤ) → Bool
is_waiting epoch now_ms none = false
is_waiting epoch now_ms (some (retry_epoch, until_ms)) =
    retry_epoch == epoch && ltb_ℤ now_ms until_ms

-- The guards of `kick` before its `compare_exchange`.
unfoldable pub may_start : ℤ → Fields → Bool
may_start now_ms fields =
    not (fields.cancel || fields.terminal_blocked_epoch == fields.epoch)
    && not (is_waiting fields.epoch now_ms fields.next_retry_not_before_ms)

-- What a worker's thread does last.
pub data FollowUp : Type 0 where
  kick nothing : FollowUp
  schedule_retry : ℤ → FollowUp

-- The `match exit` at the end of the thread, for a worker of an epoch.
unfoldable pub follow_up : ℕ → WorkerExit → Fields → Bool → FollowUp
follow_up worker_epoch WorkerExit.quiescent fields has_work =
    if not fields.cancel && fields.epoch == worker_epoch && has_work then kick else nothing
follow_up worker_epoch WorkerExit.stopped fields has_work =
    if not fields.cancel && not (fields.epoch == worker_epoch) && has_work then kick else nothing
follow_up worker_epoch (WorkerExit.backoff until_ms) fields has_work = schedule_retry until_ms
follow_up worker_epoch WorkerExit.terminal fields has_work = nothing
follow_up worker_epoch WorkerExit.store_failure fields has_work = nothing

-- What a round of `schedule_retry`'s thread finds: it ends, sleeps, or takes the retry.
pub data RetryRound : Type 0 where
  gives_up sleeps fires : RetryRound

abbrev is_own_retry : ℕ → ℤ → Option (ℕ × ℤ) → Bool
is_own_retry worker_epoch until_ms none = false
is_own_retry worker_epoch until_ms (some (retry_epoch, until)) =
    retry_epoch == worker_epoch && not (ltb_ℤ until until_ms || ltb_ℤ until_ms until)

-- One round of the loop; when it fires, the retry is cleared and `kick` is called.
unfoldable pub retry_round : ℕ → ℤ → ℤ → Fields → RetryRound
retry_round worker_epoch until_ms now_ms fields =
    if fields.cancel || not (fields.epoch == worker_epoch)
    then gives_up
    else if ltb_ℤ now_ms until_ms
    then sleeps
    else if is_own_retry worker_epoch until_ms fields.next_retry_not_before_ms
    then fires
    else gives_up
