-- ===== src/CollectSync/Lifecycle/Threads.antt =====
-- The threads of the upload service as a relation between states. A step is one store to a shared
-- field, one call, or the reads of one test. What a test reads one field after the other is an
-- argument of its step, `read`: it need not be what the fields hold together at any moment. In
-- `loads` the load of the epoch, and in `returns` the store to the blocked epoch, are part of a step.
pub mod Single
pub mod Wakeup
use burnly.Prelude.{ℕ, suc, ◌≡◌, Bool, true, false, Option, none, some, List, [], ◌∷◌, ◌++◌}
use burnly.Prelude.Int.{ℤ}
use burnly.CollectSync.Service.{WorkerExit}
use burnly.CollectSync.Lifecycle.{
  Fields, new_fields, Write, write, set_blocked, set_cancel, set_retry, may_start, FollowUp, kick,
  nothing, schedule_retry, follow_up, retry_round, fires, gives_up,
}

-- Whether the store has work, and where each thread stands: in `kick` before its guards
-- (`kicking`) or past them (`entering`), after the exchange of `running` (`claimed`), with the
-- epoch of the worker it starts (`spawning`), in `run_worker` (`working`), past it (`finished`),
-- past the store to `running` (`leaving`), or waiting for a retry (`retrying`).
pub record System : Type 0 where
  pub fields : Fields
  pub has_work : Bool
  pub kicking : ℕ
  pub entering : ℕ
  pub claimed : ℕ
  pub spawning : List ℕ
  pub working : List ℕ
  pub finished : List (ℕ × WorkerExit)
  pub leaving : List (ℕ × WorkerExit)
  pub retrying : List (ℕ × ℤ)

abbrev pub start : System
start = record {
  fields = new_fields;
  has_work = false;
  kicking = 0;
  entering = 0;
  claimed = 0;
  spawning = [];
  working = [];
  finished = [];
  leaving = [];
  retrying = [];
}

-- `this.terminal_blocked_epoch.store(epoch)` of a terminal exit.
abbrev pub block_if_terminal : ℕ → WorkerExit → Fields → Fields
block_if_terminal epoch WorkerExit.terminal fields = write (set_blocked epoch) fields
block_if_terminal epoch _ fields = fields

abbrev pub set_running : Bool → Fields → Fields
set_running running fields = record fields { running = running }

-- What a thread that leaves does: it calls `kick`, starts a thread for the retry, or ends.
abbrev pub followed : ℕ → FollowUp → System → System
followed epoch kick s = record s { kicking = suc s.kicking }
followed epoch nothing s = s
followed epoch (schedule_retry until_ms) s = record s { retrying = (epoch, until_ms) ∷ s.retrying }

pub data Step (s : System) : System → Type 0 where
  -- Any thread stores to a field other than `running`, at any time.
  stores : (w : Write) → Step s (record s { fields = write w s.fields })
  -- `on_signed_in` or `on_committed_daily_upload` has left work in the store, and calls `kick`.
  commits : Step s (record s { has_work = true; kicking = suc s.kicking })
  -- `retry_now` calls `kick`.
  asks : Step s (record s { kicking = suc s.kicking })
  refused :
      (n : ℕ) (now_ms : ℤ) (read : Fields)
      → s.kicking ≡ suc n
      → may_start now_ms read ≡ false
      → Step s (record s { kicking = n })
  passes :
      (n : ℕ) (now_ms : ℤ) (read : Fields)
      → s.kicking ≡ suc n
      → may_start now_ms read ≡ true
      → Step s (record s { kicking = n; entering = suc s.entering })
  -- The two outcomes of `compare_exchange(false, true)`.
  loses :
      (n : ℕ) → s.entering ≡ suc n → s.fields.running ≡ true → Step s (record s { entering = n })
  wins :
      (n : ℕ)
      → s.entering ≡ suc n
      → s.fields.running ≡ false
      → Step s
          (record s { entering = n; claimed = suc s.claimed; fields = set_running true s.fields })
  -- `self.cancel.store(false)`, then the load of the epoch.
  loads :
      (n : ℕ)
      → s.claimed ≡ suc n
      → Step s (record s {
        claimed = n;
        spawning = s.fields.epoch ∷ s.spawning;
        fields = write (set_cancel false) s.fields;
      })
  spawns :
      (epoch : ℕ) (pre post : List ℕ)
      → s.spawning ≡ pre ++ epoch ∷ post
      → Step s (record s { spawning = pre ++ post; working = epoch ∷ s.working })
  spawn_fails :
      (epoch : ℕ) (pre post : List ℕ)
      → s.spawning ≡ pre ++ epoch ∷ post
      → Step s (record s { spawning = pre ++ post; fields = set_running false s.fields })
  -- A worker uploads what there is.
  uploads :
      (epoch : ℕ) (pre post : List ℕ)
      → s.working ≡ pre ++ epoch ∷ post
      → Step s (record s { has_work = false })
  -- `run_worker` returns, and a terminal exit blocks the epoch.
  returns :
      (epoch : ℕ) (exit : WorkerExit) (pre post : List ℕ)
      → s.working ≡ pre ++ epoch ∷ post
      → Step s (record s {
        working = pre ++ post;
        finished = (epoch, exit) ∷ s.finished;
        fields = block_if_terminal epoch exit s.fields;
      })
  -- `this.running.store(false)`
  releases :
      (epoch : ℕ) (exit : WorkerExit) (pre post : List (ℕ × WorkerExit))
      → s.finished ≡ pre ++ (epoch, exit) ∷ post
      → Step s (record s {
        finished = pre ++ post;
        leaving = (epoch, exit) ∷ s.leaving;
        fields = set_running false s.fields;
      })
  -- `found` is what `has_work()` answers: it is false also when the store fails or no account is
  -- signed in.
  follows :
      (epoch : ℕ) (exit : WorkerExit) (read : Fields) (found : Bool)
      (pre post : List (ℕ × WorkerExit))
      → s.leaving ≡ pre ++ (epoch, exit) ∷ post
      → Step s
          (followed epoch (follow_up epoch exit read found) (record s { leaving = pre ++ post }))
  -- A retry is due, and its thread clears it and calls `kick`.
  retries :
      (epoch : ℕ) (until_ms now_ms : ℤ) (read : Fields) (pre post : List (ℕ × ℤ))
      → s.retrying ≡ pre ++ (epoch, until_ms) ∷ post
      → retry_round epoch until_ms now_ms read ≡ fires
      → Step s (record s {
        retrying = pre ++ post;
        kicking = suc s.kicking;
        fields = write (set_retry none) s.fields;
      })
  abandons :
      (epoch : ℕ) (until_ms now_ms : ℤ) (read : Fields) (pre post : List (ℕ × ℤ))
      → s.retrying ≡ pre ++ (epoch, until_ms) ∷ post
      → retry_round epoch until_ms now_ms read ≡ gives_up
      → Step s (record s { retrying = pre ++ post })

pub data Reach : System → Type 0 where
  here : Reach start
  next : {s s' : System} → Reach s → Step s s' → Reach s'
