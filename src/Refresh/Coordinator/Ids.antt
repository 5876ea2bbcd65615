-- ===== src/Refresh/Coordinator/Ids.antt =====
-- The sequence numbers in the job ids of the requests that are under way.
use burnly.Prelude.{
  ℕ, ◌+◌, ◌≤◌, ◌<◌, ◌≡◌, refl, List, [], ◌∷◌, ◌++◌, if◌then◌else◌, ltb, ◌==◌, arith, u64_max,
}
use burnly.Refresh.Coordinator.{
  CoordinatorState, Job, System, start, Step, take_id, coalesce, accept, announce, spawn_ok,
  spawn_error, cancelled, finished, report, Reach, here, next,
}

-- How many of the jobs have the sequence number `n`.
abbrev pub count : ℕ → List Job → ℕ
count n [] = 0
count n (job ∷ jobs) = (if job.id.sequence == n then 1 else 0) + count n jobs

abbrev pub count_accepted : ℕ → List (Job × CoordinatorState) → ℕ
count_accepted n [] = 0
count_accepted n ((job, _) ∷ jobs) = (if job.id.sequence == n then 1 else 0) + count_accepted n jobs

-- How many requests with that number are under way, wherever their threads stand.
abbrev pub held : ℕ → System → ℕ
held n s =
    count n s.requesting + count_accepted n s.accepted + count n s.spawning + count n s.working

count-remove :
    (n : ℕ) (l xs : List Job) (job : Job) (ys : List Job)
    → l ≡ xs ++ job ∷ ys
    → count n l ≡ (if job.id.sequence == n then 1 else 0) + count n (xs ++ ys)
count-remove n l [] job ys e = ground arith
count-remove n l (x ∷ xs) job ys e =
    rw e (omega (arith, count-remove n (xs ++ job ∷ ys) xs job ys refl))

count_accepted-remove :
    (n : ℕ) (l xs : List (Job × CoordinatorState)) (job : Job) (snapshot : CoordinatorState)
    (ys : List (Job × CoordinatorState))
    → l ≡ xs ++ (job, snapshot) ∷ ys
    → count_accepted n l ≡ (if job.id.sequence == n then 1 else 0) + count_accepted n (xs ++ ys)
count_accepted-remove n l [] job snapshot ys e = ground arith
count_accepted-remove n l (x ∷ xs) job snapshot ys e =
    rw e
      (omega (arith, count_accepted-remove n (xs ++ (job, snapshot) ∷ ys) xs job snapshot ys refl))

-- How many numbers have been handed out.
abbrev handed_out_by : {s t : System} → Step s t → ℕ
handed_out_by (take_id now trigger policy e) = 1
handed_out_by (coalesce pre post job r no_change e) = 0
handed_out_by (accept pre post job r yes_change e) = 0
handed_out_by (announce pre post job snapshot r e) = 0
handed_out_by (spawn_ok pre post job r e) = 0
handed_out_by (spawn_error pre post job r e) = 0
handed_out_by (cancelled e) = 0
handed_out_by (finished pre post job outcome at result repair r e) = 0
handed_out_by (report pre post event r e) = 0

unfoldable pub handed_out : {s t : System} → Reach s t → ℕ
handed_out here = 0
handed_out (next r step) = handed_out r + handed_out_by step

-- Only numbers that were handed out are in use, and each at most once; the next one is `k`.
abbrev Fresh : ℕ → ℕ → System → Type 0
Fresh k n s = (s.sequence ≡ k) × (held n s ≤ (if ltb n k then 1 else 0))

Step-Fresh :
    {s t : System} (k n : ℕ) (step : Step s t)
    → k + handed_out_by step ≤ u64_max
    → Fresh k n s
    → Fresh (k + handed_out_by step) n t
Step-Fresh {s} k n (take_id now trigger policy e) few (q, h) = rw e (omega arith, ground arith)
Step-Fresh {s} k n (coalesce pre post job r no_change e) few (q, h) =
    rw e (omega arith, ground (arith, count-remove n s.requesting pre job post r))
Step-Fresh {s} k n (accept pre post job r yes_change e) few (q, h) =
    rw e (omega arith, ground (arith, count-remove n s.requesting pre job post r))
Step-Fresh {s} k n (announce pre post job snapshot r e) few (q, h) =
    rw e (omega arith, ground (arith, count_accepted-remove n s.accepted pre job snapshot post r))
Step-Fresh {s} k n (spawn_ok pre post job r e) few (q, h) =
    rw e (omega arith, ground (arith, count-remove n s.spawning pre job post r))
Step-Fresh {s} k n (spawn_error pre post job r e) few (q, h) =
    rw e (omega arith, ground (arith, count-remove n s.spawning pre job post r))
Step-Fresh {s} k n (cancelled e) few (q, h) = rw e (omega arith, ground (arith, h))
Step-Fresh {s} k n (finished pre post job outcome at result repair r e) few (q, h) =
    rw e (omega arith, ground (arith, count-remove n s.working pre job post r))
Step-Fresh {s} k n (report pre post event r e) few (q, h) = rw e (omega arith, ground (arith, h))

Reach-Fresh :
    {s : System} (n : ℕ) (r : Reach start s) → handed_out r ≤ u64_max → Fresh (handed_out r) n s
unfolding handed_out
Reach-Fresh n here few = (refl, omega arith)
Reach-Fresh n (next r step) few =
    Step-Fresh (handed_out r) n step few (Reach-Fresh n r (omega arith))

-- As long as no more numbers have been handed out than the counter can count, at most one request
-- under way has a given sequence number, and it is one that was handed out before.
pub held-le_one :
    {s : System} (n : ℕ) (r : Reach start s)
    → handed_out r ≤ u64_max
    → (held n s ≤ 1) × (1 ≤ held n s → n < handed_out r)
held-le_one n r few = let (q, h) = Reach-Fresh n r few in (ground arith, λ used. ground arith)
