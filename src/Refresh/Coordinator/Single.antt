-- ===== src/Refresh/Coordinator/Single.antt =====
-- The refreshes that are in flight, against the status that is shown.
use burnly.Prelude.{
  sym, ℕ, suc, ◌+◌, ◌≡◌, refl, true, false, some, List, [], ◌∷◌, ◌++◌, if◌then◌else◌, length, All,
  All-removed, length-removed, arith,
}
use burnly.Prelude.Int.{ℤ}
use burnly.Refresh.Outcome.{RefreshStatus, is_active, RunOutcome, status}
use burnly.Refresh.Coordinator.{
  CoordinatorState, Job, request, spawn_failed, cancel, finish, Event, System, start, Step, take_id,
  coalesce, accept, announce, spawn_ok, spawn_error, cancelled, finished, report, Reach, here, next,
}

-- The refreshes that were accepted and have not ended.
abbrev pub in_flight : System → ℕ
in_flight s = length s.accepted + length s.spawning + length s.working

abbrev pub Shown : CoordinatorState → Job → Type 0
Shown state job = state.job_id ≡ some job.id

-- A refresh is in flight exactly while the status is active, it is the only one, and the state
-- shows its job id.
pub record Inv (s : System) : Type 0 where
  pub single : in_flight s ≡ (if is_active s.state.status then 1 else 0)
  pub accepted_shown : All (λ p. Shown s.state p.0) s.accepted
  pub spawning_shown : All (Shown s.state) s.spawning
  pub working_shown : All (Shown s.state) s.working

start-Inv : Inv start
start-Inv = record { single = refl; accepted_shown = tt; spawning_shown = tt; working_shown = tt }

All-of-empty {ℓ κ} : {A : Type ℓ} (P : A → Type κ) (l : List A) → length l ≡ 0 → All P l
All-of-empty P [] h = tt
All-of-empty P (x ∷ l) h = absurd (omega arith)

request-coalesced :
    (state : CoordinatorState) (job : Job)
    → (request state job).1 ≡ false
    → (request state job).0 ≡ state
unfolding request
request-coalesced state job h = ground arith

request-accepted :
    (state : CoordinatorState) (job : Job)
    → (request state job).1 ≡ true
    → (is_active state.status ≡ false)
      × ((request state job).0.status ≡ RefreshStatus.running)
      × Shown (request state job).0 job
unfolding request
request-accepted state job h = ground arith

is_active-status : (outcome : RunOutcome) → is_active (status outcome) ≡ false
is_active-status RunOutcome.succeeded = refl
is_active-status _ = refl

pub is_active-finish :
    (state : CoordinatorState) (outcome : RunOutcome) (at : ℤ)
    → is_active (finish state outcome at).status ≡ false
unfolding finish
is_active-finish state outcome at = is_active-status outcome

is_active-spawn_failed : (state : CoordinatorState) → is_active (spawn_failed state).status ≡ false
unfolding spawn_failed
is_active-spawn_failed state = refl

is_active-cancel :
    (state : CoordinatorState) → is_active (cancel state).status ≡ is_active state.status
unfolding cancel
is_active-cancel state = ground arith

job_id-cancel : (state : CoordinatorState) → (cancel state).job_id ≡ state.job_id
unfolding cancel
job_id-cancel state = ground arith

-- After the only refresh in flight has ended, none is left.
none_left : (s : System) → Inv s → (k : ℕ) → in_flight s ≡ suc k → k ≡ 0
none_left s h k e = ground (arith, h.single)

-- An accepted request finds nothing in flight.
accept-Inv :
    (s : System) (pre post : List Job) (job : Job)
    → (request s.state job).1 ≡ true
    → Inv s
    → Inv (record s {
      requesting = pre ++ post;
      state = (request s.state job).0;
      accepted = (job, (request s.state job).0) ∷ s.accepted;
    })
accept-Inv s pre post job yes_change h =
    let (idle, running, shown) = request-accepted s.state job yes_change in
    let nothing : in_flight s ≡ 0 = ground (arith, h.single) in
    record {
      single = rw running (omega arith);
      accepted_shown = (shown, All-of-empty _ s.accepted (omega arith));
      spawning_shown = All-of-empty _ s.spawning (omega arith);
      working_shown = All-of-empty _ s.working (omega arith);
    }

-- The end of a spawning or working job leaves nothing in flight, and the status is not active.
ended-Inv :
    (s : System) (spawning working : List Job) (state : CoordinatorState) (events : List Event)
    → is_active state.status ≡ false
    → suc (length s.accepted + length spawning + length working) ≡ in_flight s
    → Inv s
    → Inv (record s { spawning = spawning; working = working; state = state; reporting = events })
ended-Inv s spawning working state events inactive fewer h =
    let nothing : length s.accepted + length spawning + length working ≡ 0 =
      none_left s h (length s.accepted + length spawning + length working) (sym fewer) in
    record {
      single = rw inactive nothing;
      accepted_shown = All-of-empty _ s.accepted (omega arith);
      spawning_shown = All-of-empty _ spawning (omega arith);
      working_shown = All-of-empty _ working (omega arith);
    }

Step-Inv : {s t : System} → Step s t → Inv s → Inv t
Step-Inv {s} (take_id now trigger policy e) h = rw e (record {
  single = h.single;
  accepted_shown = h.accepted_shown;
  spawning_shown = h.spawning_shown;
  working_shown = h.working_shown;
})
Step-Inv {s} (coalesce pre post job r no_change e) h = rw e (
    rw (request-coalesced s.state job no_change) (record {
      single = h.single;
      accepted_shown = h.accepted_shown;
      spawning_shown = h.spawning_shown;
      working_shown = h.working_shown;
    }))
Step-Inv {s} (accept pre post job r yes_change e) h = rw e (accept-Inv s pre post job yes_change h)
Step-Inv {s} (announce pre post job snapshot r e) h =
    let moved =
      All-removed (λ p. Shown s.state p.0) s.accepted pre (job, snapshot) post r h.accepted_shown in
    rw e (record {
      single = omega (arith, h.single, length-removed s.accepted pre (job, snapshot) post r);
      accepted_shown = moved.1;
      spawning_shown = (moved.0, h.spawning_shown);
      working_shown = h.working_shown;
    })
Step-Inv {s} (spawn_ok pre post job r e) h =
    let moved = All-removed (Shown s.state) s.spawning pre job post r h.spawning_shown in
    rw e (record {
      single = omega (arith, h.single, length-removed s.spawning pre job post r);
      accepted_shown = h.accepted_shown;
      spawning_shown = moved.1;
      working_shown = (moved.0, h.working_shown);
    })
Step-Inv {s} (spawn_error pre post job r e) h = rw e (
    ended-Inv s (pre ++ post) s.working (spawn_failed s.state) _ (is_active-spawn_failed s.state)
      (omega (arith, length-removed s.spawning pre job post r)) h)
Step-Inv {s} (cancelled e) h = rw e (record {
  single = rw (is_active-cancel s.state) h.single;
  accepted_shown = rw (job_id-cancel s.state) h.accepted_shown;
  spawning_shown = rw (job_id-cancel s.state) h.spawning_shown;
  working_shown = rw (job_id-cancel s.state) h.working_shown;
})
Step-Inv {s} (finished pre post job outcome at result repair r e) h = rw e (
    ended-Inv s s.spawning (pre ++ post) (finish s.state outcome at) _
      (is_active-finish s.state outcome at) (omega (arith, length-removed s.working pre job post r))
      h)
Step-Inv {s} (report pre post event r e) h = rw e (record {
  single = h.single;
  accepted_shown = h.accepted_shown;
  spawning_shown = h.spawning_shown;
  working_shown = h.working_shown;
})

-- In every state that the threads can reach, a refresh is in flight exactly while the status is
-- active, it is the only one, and the state shows its job id.
pub Reach-Inv : {s : System} → Reach start s → Inv s
Reach-Inv here = start-Inv
Reach-Inv (next r step) = Step-Inv step (Reach-Inv r)
