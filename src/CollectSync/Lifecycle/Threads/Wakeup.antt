-- ===== src/CollectSync/Lifecycle/Threads/Wakeup.antt =====
-- Work that arrives while a worker runs, against who will look at it.
use burnly.Prelude.{
  ◌≡◌, refl, ◌∙◌, ◌<◌, ℕ, ◌+◌, Bool, true, false, List, ◌++◌, length, All, All-removed, arith,
  if◌then◌else◌, ==_iff,
}
use burnly.CollectSync.Service.{WorkerExit}
use burnly.CollectSync.Lifecycle.{Fields, write, FollowUp, kick, nothing, schedule_retry, follow_up}
use burnly.CollectSync.Lifecycle.Threads.{
  System, start, set_running, followed, Step, stores, commits, asks, refused, passes, loses, wins,
  loads, spawns, spawn_fails, uploads, returns, releases, follows, retries, abandons,
}
use burnly.CollectSync.Lifecycle.Threads.Single.{one_if}

-- The step is one of an undisturbed session: the guards of `kick` let it pass, threads can be
-- started, workers end when they find no work, no field is stored to from elsewhere, and a thread
-- that leaves reads the fields as they are and finds the work that the store has.
unfoldable pub IsQuiet : {s s' : System} → Step s s' → Type 0
IsQuiet (stores w) = ⊥
IsQuiet commits = Unit
IsQuiet asks = Unit
IsQuiet (refused n now_ms read e g) = ⊥
IsQuiet (passes n now_ms read e g) = Unit
IsQuiet (loses n e r) = Unit
IsQuiet (wins n e r) = Unit
IsQuiet (loads n e) = Unit
IsQuiet (spawns epoch pre post e) = Unit
IsQuiet (spawn_fails epoch pre post e) = ⊥
IsQuiet (uploads epoch pre post e) = Unit
IsQuiet (returns epoch exit pre post e) = exit ≡ WorkerExit.quiescent
IsQuiet (releases epoch exit pre post e) = Unit
IsQuiet {s} (follows epoch exit read found pre post e) =
    (read.cancel ≡ s.fields.cancel)
    × (read.epoch ≡ s.fields.epoch)
    × (s.has_work ≡ true → found ≡ true)
IsQuiet (retries epoch until_ms now_ms read pre post e f) = ⊥
IsQuiet (abandons epoch until_ms now_ms read pre post e f) = ⊥

-- What is reached in an undisturbed session from a state of the fields in which no worker runs.
pub data QuietReach (fields : Fields) : System → Type 0 where
  here : QuietReach fields (record start { fields = set_running false fields })
  next :
      {s s' : System}
      → QuietReach fields s
      → (step : Step s s') → IsQuiet step
      → QuietReach fields s'

-- Who will look at the work: a worker that has not stored to `running`, a call of `kick`, or a
-- thread that will ask for work before it ends.
abbrev pub watchers : System → ℕ
watchers s = one_if s.fields.running + s.kicking + s.entering + length s.leaving

abbrev IsOf : ℕ → ℕ × WorkerExit → Type 0
IsOf epoch p = (p.0 ≡ epoch) × (p.1 ≡ WorkerExit.quiescent)

-- The workers are of the present epoch, found no work if they have ended, and are not cancelled.
abbrev AreCurrent : Fields → System → Type 0
AreCurrent fields s =
    (fields.cancel ≡ false)
    × All (λ e. e ≡ fields.epoch) s.spawning
    × All (λ e. e ≡ fields.epoch) s.working
    × All (IsOf fields.epoch) s.finished
    × All (IsOf fields.epoch) s.leaving

abbrev IsWatched : System → Type 0
IsWatched s = s.has_work ≡ true → 0 < watchers s

abbrev Inv : System → Type 0
Inv s = AreCurrent s.fields s × IsWatched s

start-Inv :
    (fields : Fields)
    → fields.cancel ≡ false
    → Inv (record start { fields = set_running false fields })
start-Inv fields h = ((h, tt, tt, tt, tt), λ w. absurd (ground arith))

-- A thread that leaves with work left calls `kick`.
follow-quiescent :
    (epoch : ℕ) (exit : WorkerExit) (fields : Fields) (has_work : Bool)
    → fields.cancel ≡ false
    → IsOf fields.epoch (epoch, exit)
    → follow_up epoch exit fields has_work ≡ (if has_work then kick else nothing)
unfolding follow_up
follow-quiescent epoch WorkerExit.quiescent fields has_work h o =
    ground (arith, ==_iff fields.epoch epoch)
follow-quiescent epoch WorkerExit.stopped fields has_work h o = absurd (ground arith)
follow-quiescent epoch WorkerExit.terminal fields has_work h o = absurd (ground arith)
follow-quiescent epoch WorkerExit.store_failure fields has_work h o = absurd (ground arith)
follow-quiescent epoch (WorkerExit.backoff until_ms) fields has_work h o = absurd (ground arith)

followed-Inv :
    (epoch : ℕ) (f : FollowUp) (found : Bool) (s : System) (leaving : List (ℕ × WorkerExit))
    → f ≡ (if found then kick else nothing)
    → (s.has_work ≡ true → found ≡ true)
    → AreCurrent s.fields (record s { leaving = leaving })
    → Inv (followed epoch f (record s { leaving = leaving }))
followed-Inv epoch kick found s leaving e k c = (c, λ w. omega arith)
followed-Inv epoch nothing found s leaving e k c =
    (c, λ w. let f : found ≡ true = k w in absurd (ground arith))
followed-Inv epoch (schedule_retry until_ms) found s leaving e k c = absurd (ground arith)

Step-Inv : (s s' : System) (step : Step s s') → IsQuiet step → Inv s → Inv s'
unfolding IsQuiet write
Step-Inv s s' (stores w) q h = absurd q
Step-Inv s s' commits q h = (h.0, λ w. omega arith)
Step-Inv s s' asks q h = (h.0, λ w. omega arith)
Step-Inv s s' (refused n now_ms read e g) q h = absurd q
Step-Inv s s' (passes n now_ms read e g) q h = (h.0, λ w. omega arith)
Step-Inv s s' (loses n e r) q h = (h.0, λ w. ground (arith, r))
Step-Inv s s' (wins n e r) q h = (h.0, λ w. omega arith)
Step-Inv s s' (loads n e) q ((c, sp, wo, fi, le), watched) =
    ((refl, (refl, sp), wo, fi, le), watched)
Step-Inv s s' (spawns epoch pre post e) q ((c, sp, wo, fi, le), watched) =
    let (this, others) = All-removed (λ e. e ≡ s.fields.epoch) s.spawning pre epoch post e sp in
    ((c, others, (this, wo), fi, le), watched)
Step-Inv s s' (spawn_fails epoch pre post e) q h = absurd q
Step-Inv s s' (uploads epoch pre post e) q h = (h.0, λ w. absurd (ground (arith, w)))
Step-Inv s s' (returns epoch WorkerExit.quiescent pre post e) q ((c, sp, wo, fi, le), watched) =
    let (this, others) = All-removed (λ e. e ≡ s.fields.epoch) s.working pre epoch post e wo in
    ((c, sp, others, ((this, refl), fi), le), watched)
Step-Inv s s' (returns epoch WorkerExit.stopped pre post e) q h = absurd (ground arith)
Step-Inv s s' (returns epoch WorkerExit.terminal pre post e) q h = absurd (ground arith)
Step-Inv s s' (returns epoch WorkerExit.store_failure pre post e) q h = absurd (ground arith)
Step-Inv s s' (returns epoch (WorkerExit.backoff until_ms) pre post e) q h = absurd (ground arith)
Step-Inv s s' (releases epoch exit pre post e) q ((c, sp, wo, fi, le), watched) =
    let (this, others) = All-removed (IsOf s.fields.epoch) s.finished pre (epoch, exit) post e fi in
    ((c, sp, wo, others, (this, le)), λ w. omega arith)
Step-Inv s s' (follows epoch exit read found pre post e) q ((c, sp, wo, fi, le), watched) =
    let (this, others) = All-removed (IsOf s.fields.epoch) s.leaving pre (epoch, exit) post e le in
    followed-Inv epoch _ found s (pre ++ post)
      (follow-quiescent epoch exit read found (q.0 ∙ c) (rw q.1 this)) q.2 (c, sp, wo, fi, others)
Step-Inv s s' (retries epoch until_ms now_ms read pre post e f) q h = absurd q
Step-Inv s s' (abandons epoch until_ms now_ms read pre post e f) q h = absurd q

Reach-Inv : (fields : Fields) (s : System) → fields.cancel ≡ false → QuietReach fields s → Inv s
Reach-Inv fields s h here = start-Inv fields h
Reach-Inv fields s h (next r step q) = Step-Inv _ s step q (Reach-Inv fields _ h r)

-- No wake-up is lost in an undisturbed session that begins uncancelled and without a worker: no
-- field is stored to from elsewhere, no `kick` is refused, threads start, workers end quiescent, and
-- `has_work()` finds the work that the store has. While the store has work, a worker has not yet
-- stored to `running`, or a `kick` is under way, or a thread has yet to check for work before it
-- ends. This holds for all interleavings.
pub QuietReach-watched :
    (fields : Fields) (s : System)
    → fields.cancel ≡ false
    → QuietReach fields s
    → s.has_work ≡ true
    → 0 < (if s.fields.running then 1 else 0) + s.kicking + s.entering + length s.leaving
QuietReach-watched fields s h r w = (Reach-Inv fields s h r).1 w
