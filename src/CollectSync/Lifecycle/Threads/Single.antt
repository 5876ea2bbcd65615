-- ===== src/CollectSync/Lifecycle/Threads/Single.antt =====
-- The threads that hold the upload worker, against the field `running`.
use burnly.Prelude.{
  none, ◌≡◌, refl, sym, ◌∙◌, ap, ℕ, suc, ◌+◌, Bool, true, false, ◌++◌, length, length-removed,
  arith, if◌then◌else◌,
}
use burnly.CollectSync.Service.{WorkerExit}
use burnly.CollectSync.Lifecycle.{
  Fields, Write, write, set_user, set_cancel, set_blocked, bump_epoch, set_retry, FollowUp, kick,
  nothing, schedule_retry, follow_up,
}
use burnly.CollectSync.Lifecycle.Threads.{
  System, block_if_terminal, followed, Step, stores, commits, asks, refused, passes, loses, wins,
  loads, spawns, spawn_fails, uploads, returns, releases, follows, retries, abandons, Reach, here,
  next,
}

-- The threads between the exchange of `running` and the store that ends it.
abbrev pub holders : System → ℕ
holders s = s.claimed + length s.spawning + length s.working + length s.finished

abbrev pub one_if : Bool → ℕ
one_if running = if running then 1 else 0

abbrev pub IsHeld : System → Type 0
IsHeld s = holders s ≡ one_if s.fields.running

pub running-write : (w : Write) (fields : Fields) → (write w fields).running ≡ fields.running
unfolding write
running-write (set_user user) fields = refl
running-write (set_cancel cancelled) fields = refl
running-write (set_blocked blocked) fields = refl
running-write bump_epoch fields = refl
running-write (set_retry retry) fields = refl

running-block :
    (epoch : ℕ) (exit : WorkerExit) (fields : Fields)
    → (block_if_terminal epoch exit fields).running ≡ fields.running
running-block epoch WorkerExit.terminal fields = running-write (set_blocked epoch) fields
running-block epoch WorkerExit.quiescent fields = refl
running-block epoch WorkerExit.store_failure fields = refl
running-block epoch WorkerExit.stopped fields = refl
running-block epoch (WorkerExit.backoff until_ms) fields = refl

-- A thread that goes on, with the field as it was.
moves :
    (n m : ℕ) (fields fields' : Fields)
    → n ≡ one_if fields.running
    → m ≡ n
    → fields'.running ≡ fields.running
    → m ≡ one_if fields'.running
moves n m fields fields' h e r = e ∙ h ∙ ap one_if (sym r)

-- When one of at most one holders ends, none is left.
ends : (k n : ℕ) (running : Bool) → n ≡ one_if running → n ≡ suc k → k ≡ 0
ends k n true h e = omega arith
ends k n false h e = omega arith

followed-IsHeld : (epoch : ℕ) (f : FollowUp) (s : System) → IsHeld s → IsHeld (followed epoch f s)
followed-IsHeld epoch kick s h = h
followed-IsHeld epoch nothing s h = h
followed-IsHeld epoch (schedule_retry until_ms) s h = h

Step-IsHeld : (s s' : System) → Step s s' → IsHeld s → IsHeld s'
Step-IsHeld s s' (stores w) h =
    moves (holders s) _ s.fields (write w s.fields) h refl (running-write w s.fields)
Step-IsHeld s s' commits h = h
Step-IsHeld s s' asks h = h
Step-IsHeld s s' (refused n now_ms read e g) h = h
Step-IsHeld s s' (passes n now_ms read e g) h = h
Step-IsHeld s s' (loses n e r) h = h
Step-IsHeld s s' (wins n e r) h = ground (arith, h)
Step-IsHeld s s' (loads n e) h =
    moves (holders s) _ s.fields (write (set_cancel false) s.fields) h (omega arith)
      (running-write (set_cancel false) s.fields)
Step-IsHeld s s' (spawns epoch pre post e) h =
    let l : length s.spawning ≡ suc (length (pre ++ post)) = length-removed _ pre epoch post e in
    moves (holders s) _ s.fields s.fields h (omega arith) refl
Step-IsHeld s s' (spawn_fails epoch pre post e) h =
    let l : length s.spawning ≡ suc (length (pre ++ post)) = length-removed _ pre epoch post e in
    ends (s.claimed + length (pre ++ post) + length s.working + length s.finished) (holders s)
      s.fields.running h (omega arith)
Step-IsHeld s s' (uploads epoch pre post e) h = h
Step-IsHeld s s' (returns epoch exit pre post e) h =
    let l : length s.working ≡ suc (length (pre ++ post)) = length-removed _ pre epoch post e in
    moves (holders s) _ s.fields (block_if_terminal epoch exit s.fields) h (omega arith)
      (running-block epoch exit s.fields)
Step-IsHeld s s' (releases epoch exit pre post e) h =
    let l : length s.finished ≡ suc (length (pre ++ post)) =
      length-removed _ pre (epoch, exit) post e in
    ends (s.claimed + length s.spawning + length s.working + length (pre ++ post)) (holders s)
      s.fields.running h (omega arith)
Step-IsHeld s s' (follows epoch exit read found pre post e) h =
    followed-IsHeld epoch (follow_up epoch exit read found) _ h
Step-IsHeld s s' (retries epoch until_ms now_ms read pre post e f) h =
    moves (holders s) _ s.fields (write (set_retry none) s.fields) h refl
      (running-write (set_retry none) s.fields)
Step-IsHeld s s' (abandons epoch until_ms now_ms read pre post e f) h = h

-- However the threads interleave, and whatever the other threads store meanwhile, `running` is
-- set exactly while one thread holds the worker, and never do two: counting the threads that have
-- won the exchange, are about to spawn, work, or have not yet stored to `running`.
pub Reach-IsHeld : (s : System) → Reach s → holders s ≡ (if s.fields.running then 1 else 0)
Reach-IsHeld s here = refl
Reach-IsHeld s (next r step) = Step-IsHeld _ s step (Reach-IsHeld _ r)
