-- ===== src/CollectSync/Lifecycle/Handlers.antt =====
-- `kick` after `on_signed_out`, after a terminal exit, and after `on_signed_in` and `retry_now`.
use burnly.Prelude.{All, ◌≡◌, refl, ◌≢◌, ◌+◌, ◌%◌, true, false, List, [], ◌∷◌, arith, u64_max}
use burnly.Prelude.Text.{Text}
use burnly.Prelude.Int.{ℤ}
use burnly.CollectSync.Service.{WorkerExit}
use burnly.CollectSync.Lifecycle.{
  Fields, Write, write, write_all, set_user, set_cancel, set_blocked, bump_epoch, set_retry,
  signed_in_writes, signed_out_writes, retry_now_writes, may_start,
}
use burnly.CollectSync.Lifecycle.Threads.{block_if_terminal}

-- Signing in lets `kick` pass at every time, whatever was blocked, cancelled or waiting before, if
-- the epoch that it begins is not the largest `u64`. Asking for a retry lets it pass, whatever was
-- blocked or waiting, if the service is not cancelled and its epoch is not the largest `u64`.
pub may_start-resumes :
    (now_ms : ℤ) (user_id : Text) (before paused : Fields)
    → (before.epoch + 1) % 18446744073709551616 ≢ u64_max
    → paused.cancel ≡ false
    → paused.epoch ≢ u64_max
    → (may_start now_ms (write_all (signed_in_writes user_id) before) ≡ true)
      × (may_start now_ms (write_all retry_now_writes paused) ≡ true)
unfolding may_start write_all write
may_start-resumes now_ms user_id before paused h c e = (ground arith, ground arith)

-- The stores that neither unblock the epoch nor begin another, and those that do not reset
-- `cancel`.
abbrev pub KeepsBlocked : Write → Type 0
KeepsBlocked (set_blocked blocked) = ⊥
KeepsBlocked bump_epoch = ⊥
KeepsBlocked (set_cancel cancelled) = Unit
KeepsBlocked (set_user user) = Unit
KeepsBlocked (set_retry retry) = Unit

abbrev pub KeepsCancelled : Write → Type 0
KeepsCancelled (set_cancel cancelled) = cancelled ≡ true
KeepsCancelled (set_blocked blocked) = Unit
KeepsCancelled bump_epoch = Unit
KeepsCancelled (set_user user) = Unit
KeepsCancelled (set_retry retry) = Unit

blocked-write :
    (w : Write) (fields : Fields)
    → KeepsBlocked w
    → fields.terminal_blocked_epoch ≡ fields.epoch
    → (write w fields).terminal_blocked_epoch ≡ (write w fields).epoch
unfolding write
blocked-write (set_user user) fields k h = h
blocked-write (set_cancel cancelled) fields k h = h
blocked-write (set_blocked blocked) fields k h = absurd k
blocked-write bump_epoch fields k h = absurd k
blocked-write (set_retry retry) fields k h = h

blocked-write_all :
    (now_ms : ℤ) (ws : List Write) (fields : Fields)
    → All KeepsBlocked ws
    → fields.terminal_blocked_epoch ≡ fields.epoch
    → may_start now_ms (write_all ws fields) ≡ false
unfolding may_start write_all
blocked-write_all now_ms [] fields k h = ground (arith, h)
blocked-write_all now_ms (w ∷ ws) fields k h =
    blocked-write_all now_ms ws (write w fields) k.1 (blocked-write w fields k.0 h)

cancelled-write :
    (w : Write) (fields : Fields)
    → KeepsCancelled w
    → fields.cancel ≡ true
    → (write w fields).cancel ≡ true
unfolding write
cancelled-write (set_user user) fields k h = h
cancelled-write (set_cancel cancelled) fields k h = k
cancelled-write (set_blocked blocked) fields k h = h
cancelled-write bump_epoch fields k h = h
cancelled-write (set_retry retry) fields k h = h

cancelled-write_all :
    (now_ms : ℤ) (ws : List Write) (fields : Fields)
    → All KeepsCancelled ws
    → fields.cancel ≡ true
    → may_start now_ms (write_all ws fields) ≡ false
unfolding may_start write_all
cancelled-write_all now_ms [] fields k h = ground (arith, h)
cancelled-write_all now_ms (w ∷ ws) fields k h =
    cancelled-write_all now_ms ws (write w fields) k.1 (cancelled-write w fields k.0 h)

-- After a terminal exit of the present epoch `kick` is refused at every time, until something
-- stores to the blocked epoch or begins another epoch; and after a sign-out, until something
-- resets `cancel`.
pub may_start-refused :
    (now_ms : ℤ) (fields : Fields) (ws vs : List Write)
    → All KeepsBlocked ws
    → All KeepsCancelled vs
    → (may_start now_ms (write_all ws (block_if_terminal fields.epoch WorkerExit.terminal fields))
        ≡ false)
      × (may_start now_ms (write_all vs (write_all signed_out_writes fields)) ≡ false)
unfolding write_all write
may_start-refused now_ms fields ws vs k l = (
  blocked-write_all now_ms ws (block_if_terminal fields.epoch WorkerExit.terminal fields) k refl,
  cancelled-write_all now_ms vs (write_all signed_out_writes fields) l refl,
)
