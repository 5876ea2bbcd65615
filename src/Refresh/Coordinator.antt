-- ===== src/Refresh/Coordinator.antt =====
-- src-tauri/src/application/refresh/coordinator.rs: the shared state, what each critical section
-- does to it, and the threads that enter them as a step relation.
pub mod Single
pub mod Progress
pub mod Ids
use burnly.Prelude.{
  ℕ, ◌+◌, ◌%◌, ◌≡◌, Bool, true, false, ◌||◌, Option, none, some, List, [], ◌∷◌, ◌++◌, if◌then◌else◌,
}
use burnly.Prelude.Int.{ℤ}
use burnly.Refresh.Outcome.{RefreshStatus, is_active, RunOutcome, status}

pub data RefreshTrigger : Type 0 where
  launch manual scheduled file_change resume reconcile : RefreshTrigger

pub data RefreshScopePolicy : Type 0 where
  full catch_up freshness : RefreshScopePolicy

-- The text "refresh-{now_ms}-{sequence}", by its two parts.
pub record JobId : Type 0 where
  pub now_ms : ℤ
  pub sequence : ℕ

-- `CoordinatorState`, and `RefreshSnapshot`, which is a copy of it.
pub record CoordinatorState : Type 0 where
  pub status : RefreshStatus
  pub job_id : Option JobId
  pub trigger : Option RefreshTrigger
  pub last_successful_refresh_at_ms : Option ℤ

-- The state that `with_event_sink_and_budget_evaluator` starts from.
abbrev pub initial : CoordinatorState
initial = record {
  status = RefreshStatus.idle;
  job_id = none;
  trigger = none;
  last_successful_refresh_at_ms = none;
}

-- What a request carries from its caller to its worker.
pub record Job : Type 0 where
  pub id : JobId
  pub trigger : RefreshTrigger
  pub policy : RefreshScopePolicy

-- The critical section of `request_refresh_with_scope_policy`. The flag says whether the request
-- was accepted; if not it coalesces into the active refresh and changes nothing.
unfoldable pub request : CoordinatorState → Job → CoordinatorState × Bool
request state job = if is_active state.status then (state, false) else (
  record state { status = RefreshStatus.running; job_id = some job.id; trigger = some job.trigger },
  true,
)

-- The critical section after a failed `spawn`.
unfoldable pub spawn_failed : CoordinatorState → CoordinatorState
spawn_failed state = record state { status = RefreshStatus.failed }

-- `cancel`
unfoldable pub cancel : CoordinatorState → CoordinatorState
cancel state =
    if is_active state.status then record state { status = RefreshStatus.cancelling } else state

abbrev success_time : RunOutcome → ℤ → Option ℤ → Option ℤ
success_time RunOutcome.succeeded finished_at_ms last = some finished_at_ms
success_time _ finished_at_ms last = last

-- The critical section of `finish_refresh`.
unfoldable pub finish : CoordinatorState → RunOutcome → ℤ → CoordinatorState
finish state outcome finished_at_ms = record state {
  status = status outcome;
  last_successful_refresh_at_ms =
      success_time outcome finished_at_ms state.last_successful_refresh_at_ms;
}

-- `result.usage_changed || repair_completion.map(...).unwrap_or(false)`
abbrev pub usage_changed : Bool → Option Bool → Bool
usage_changed result none = result
usage_changed result (some repaired) = result || repaired

-- A call of `RefreshEventSink::publish`.
pub record Event : Type 0 where
  pub snapshot : CoordinatorState
  pub changed : Bool

-- All threads at one moment, by where they stand: with a job id but before the lock; accepted but
-- before the event; before `spawn`; in the worker; and past the last lock with an event to send.
pub record System : Type 0 where
  pub sequence : ℕ
  pub state : CoordinatorState
  pub requesting : List Job
  pub accepted : List (Job × CoordinatorState)
  pub spawning : List Job
  pub working : List Job
  pub reporting : List Event
  pub published : List Event

abbrev pub start : System
start = record {
  sequence = 0;
  state = initial;
  requesting = [];
  accepted = [];
  spawning = [];
  working = [];
  reporting = [];
  published = [];
}

-- One atomic action of one thread.
pub data Step (s : System) : System → Type 0 where
  -- `next_job_id`, whose `fetch_add` wraps around.
  take_id :
      (now_ms : ℤ) (trigger : RefreshTrigger) (policy : RefreshScopePolicy) {t : System}
      → t ≡ record s {
        sequence = (s.sequence + 1) % 18446744073709551616;
        requesting =
            record {
              id = record { now_ms = now_ms; sequence = s.sequence };
              trigger = trigger;
              policy = policy;
            }
            ∷ s.requesting;
      }
      → Step s t
  coalesce :
      (pre post : List Job) (job : Job) {t : System}
      → s.requesting ≡ pre ++ job ∷ post
      → (request s.state job).1 ≡ false
      → t ≡ record s { requesting = pre ++ post; state = (request s.state job).0 }
      → Step s t
  accept :
      (pre post : List Job) (job : Job) {t : System}
      → s.requesting ≡ pre ++ job ∷ post
      → (request s.state job).1 ≡ true
      → t ≡ record s {
        requesting = pre ++ post;
        state = (request s.state job).0;
        accepted = (job, (request s.state job).0) ∷ s.accepted;
      }
      → Step s t
  announce :
      (pre post : List (Job × CoordinatorState)) (job : Job) (snapshot : CoordinatorState)
      {t : System}
      → s.accepted ≡ pre ++ (job, snapshot) ∷ post
      → t ≡ record s {
        accepted = pre ++ post;
        spawning = job ∷ s.spawning;
        published = record { snapshot = snapshot; changed = false } ∷ s.published;
      }
      → Step s t
  spawn_ok :
      (pre post : List Job) (job : Job) {t : System}
      → s.spawning ≡ pre ++ job ∷ post
      → t ≡ record s { spawning = pre ++ post; working = job ∷ s.working }
      → Step s t
  spawn_error :
      (pre post : List Job) (job : Job) {t : System}
      → s.spawning ≡ pre ++ job ∷ post
      → t ≡ record s {
        spawning = pre ++ post;
        state = spawn_failed s.state;
        reporting = record { snapshot = spawn_failed s.state; changed = false } ∷ s.reporting;
      }
      → Step s t
  cancelled : {t : System} → t ≡ record s { state = cancel s.state } → Step s t
  finished :
      (pre post : List Job) (job : Job) (outcome : RunOutcome) (finished_at_ms : ℤ) (result : Bool)
      (repair : Option Bool) {t : System}
      → s.working ≡ pre ++ job ∷ post
      → t ≡ record s {
        working = pre ++ post;
        state = finish s.state outcome finished_at_ms;
        reporting =
            record {
              snapshot = finish s.state outcome finished_at_ms;
              changed = usage_changed result repair;
            }
            ∷ s.reporting;
      }
      → Step s t
  report :
      (pre post : List Event) (event : Event) {t : System}
      → s.reporting ≡ pre ++ event ∷ post
      → t ≡ record s { reporting = pre ++ post; published = event ∷ s.published }
      → Step s t

pub data Reach (s : System) : System → Type 0 where
  here : Reach s s
  next : {t u : System} → Reach s t → Step t u → Reach s u
