-- ===== src/CollectSync/Lifecycle/Tests.antt =====
-- Runs of the threads of the upload service on concrete data.
use burnly.Prelude.{
  ℕ, ◌≡◌, ◌<◌, ◌+◌, ◌≢◌, refl, true, false, [], ◌∷◌, length, arith, u64_max, none, some,
  if◌then◌else◌,
}
use burnly.Prelude.Text.{text}
use burnly.Prelude.Int.{pos}
use burnly.CollectSync.Service.{WorkerExit}
use burnly.CollectSync.Lifecycle.{
  Fields, new_fields, write_all, write, set_retry, set_user, signed_in_writes, signed_out_writes,
  retry_now_writes, may_start,
}
use burnly.CollectSync.Lifecycle.Threads.{
  System, start, Reach, here, next, block_if_terminal, commits, passes, wins, loses, loads, spawns,
  uploads, returns, releases,
}
use burnly.CollectSync.Lifecycle.Threads.Single.{holders, Reach-IsHeld}
use burnly.CollectSync.Lifecycle.Threads.Wakeup.{QuietReach, QuietReach-watched, IsQuiet}
use burnly.CollectSync.Lifecycle.Handlers.{may_start-resumes, may_start-refused}

-- A worker that was started for a committed upload.
abbrev working : System
working = record start {
  has_work = true;
  working = 0 ∷ [];
  fields = record new_fields { running = true };
}

working-reached : Reach working
unfolding may_start write
working-reached =
    next
      (next
        (next (next (next here commits) (passes 0 (pos 5) new_fields refl refl)) (wins 0 refl refl))
        (loads 0 refl))
      (spawns 0 [] [] refl)

Reach-IsHeld_example : holders working ≡ (if true then 1 else 0)
Reach-IsHeld_example = Reach-IsHeld working working-reached

-- Work has arrived after a worker found none, while it still held `running`: the `kick` for it lost
-- the exchange, and the worker's thread has yet to look for work.
abbrev leaving_with_work : System
leaving_with_work = record start { has_work = true; leaving = (0, WorkerExit.quiescent) ∷ [] }

-- Up to the worker, and what follows.
abbrev begun : System
begun = record working { has_work = false }

begun-reached : QuietReach new_fields begun
unfolding IsQuiet may_start write
begun-reached =
    let kicked = QuietReach.next QuietReach.here commits tt in
    let passed = QuietReach.next kicked (passes 0 (pos 5) new_fields refl refl) tt in
    let won = QuietReach.next passed (wins 0 refl refl) tt in
    let loaded = QuietReach.next won (loads 0 refl) tt in
    let spawned = QuietReach.next loaded (spawns 0 [] [] refl) tt in
    QuietReach.next spawned (uploads 0 [] [] refl) tt

leaving_with_work-reached : QuietReach new_fields leaving_with_work
unfolding IsQuiet may_start write
leaving_with_work-reached =
    let kicked = QuietReach.next begun-reached commits tt in
    let passed =
      QuietReach.next kicked (passes 0 (pos 6) (record new_fields { running = true }) refl refl)
        tt in
    let lost = QuietReach.next passed (loses 0 refl refl) tt in
    let returned = QuietReach.next lost (returns 0 WorkerExit.quiescent [] [] refl) refl in
    QuietReach.next returned (releases 0 WorkerExit.quiescent [] [] refl) tt

QuietReach-watched_example :
    0 < (if false then 1 else 0) + 0 + 0 + length {A = ℕ × WorkerExit} leaving_with_work.leaving
QuietReach-watched_example =
    QuietReach-watched new_fields leaving_with_work refl leaving_with_work-reached refl

zero-ne-max : 0 ≢ u64_max
zero-ne-max = omega arith

two-ne-max : 2 ≢ u64_max
two-ne-max = omega arith

-- After a sign-out, and after a terminal exit with a retry that lies ahead.
abbrev signed_out : Fields
signed_out = record new_fields { cancel = true; epoch = 1; terminal_blocked_epoch = 1 }

abbrev blocked : Fields
blocked = record new_fields {
  terminal_blocked_epoch = 0;
  next_retry_not_before_ms = some (0, pos 9);
}

may_start-resumes_example :
    (may_start (pos 5) (write_all (signed_in_writes (text "user")) signed_out) ≡ true)
    × (may_start (pos 5) (write_all retry_now_writes blocked) ≡ true)
may_start-resumes_example =
    may_start-resumes (pos 5) (text "user") signed_out blocked two-ne-max refl zero-ne-max

may_start-refused_example :
    (may_start
        (pos 5)
        (write_all (set_retry none ∷ []) (block_if_terminal 0 WorkerExit.terminal new_fields))
      ≡ false)
    × (may_start (pos 5) (write_all (set_user none ∷ []) (write_all signed_out_writes new_fields))
        ≡ false)
may_start-refused_example =
    may_start-refused (pos 5) new_fields (set_retry none ∷ []) (set_user none ∷ []) (tt, tt)
      (tt, tt)
