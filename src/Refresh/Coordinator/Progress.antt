-- ===== src/Refresh/Coordinator/Progress.antt =====
-- How a refresh in flight can end.
use burnly.Prelude.{◌≤◌, ◌≡◌, refl, ◌⊎◌, inl, inr, true, false, none, List, [], ◌∷◌, arith}
use burnly.Prelude.Int.{ℤ}
use burnly.Refresh.Outcome.{is_active, RunOutcome}
use burnly.Refresh.Coordinator.{
  CoordinatorState, Job, finish, System, start, Step, announce, spawn_ok, finished, Reach, here,
  next,
}
use burnly.Refresh.Coordinator.Single.{Reach-Inv, in_flight, is_active-finish}

abbrev Settles : System → RunOutcome → ℤ → Type 0
Settles s outcome at = (t : System) × Reach s t × (t.state ≡ finish s.state outcome at)

-- What is left of a step before a run of steps.
prepend : {s t u : System} → Step s t → Reach t u → Reach s u
prepend step here = next here step
prepend step (next r last) = next (prepend step r) last

finish_worker :
    (s : System) (job : Job) (rest : List Job) (outcome : RunOutcome) (at : ℤ)
    → s.working ≡ job ∷ rest
    → Settles s outcome at
finish_worker s job rest outcome at e =
    (_, next here (finished [] rest job outcome at false none e refl), refl)

spawn_worker :
    (s : System) (job : Job) (rest : List Job) (outcome : RunOutcome) (at : ℤ)
    → s.spawning ≡ job ∷ rest
    → Settles s outcome at
spawn_worker s job rest outcome at e =
    let t = record s { spawning = rest; working = job ∷ s.working } in
    let (u, r, q) = finish_worker t job s.working outcome at refl in
    (u, prepend (spawn_ok [] rest job e refl) r, q)

announce_worker :
    (s : System) (job : Job) (snapshot : CoordinatorState) (rest : List (Job × CoordinatorState))
    (outcome : RunOutcome) (at : ℤ)
    → s.accepted ≡ (job, snapshot) ∷ rest
    → Settles s outcome at
announce_worker s job snapshot rest outcome at e =
    let t = record s {
      accepted = rest;
      spawning = job ∷ s.spawning;
      published = record { snapshot = snapshot; changed = false } ∷ s.published;
    } in
    let (u, r, q) = spawn_worker t job s.spawning outcome at refl in
    (u, prepend (announce [] rest job snapshot e refl) r, q)

List-cases : {A : Type 0} (l : List A) → (l ≡ []) ⊎ ((x : A) × (xs : List A) × (l ≡ x ∷ xs))
List-cases [] = inl refl
List-cases (x ∷ xs) = inr (x, xs, refl)

none_busy : (s : System) → s.accepted ≡ [] → s.spawning ≡ [] → s.working ≡ [] → ¬ (1 ≤ in_flight s)
none_busy s a b c h = ground arith

settle : (s : System) (outcome : RunOutcome) (at : ℤ) → 1 ≤ in_flight s → Settles s outcome at
settle s outcome at busy = elim (List-cases s.accepted) [
  | inr (p, rest, e) ↦ announce_worker s p.0 p.1 rest outcome at e
  | inl no_accepted ↦ elim (List-cases s.spawning) [
    | inr (job, rest, e) ↦ spawn_worker s job rest outcome at e
    | inl no_spawning ↦ elim (List-cases s.working) [
      | inr (job, rest, e) ↦ finish_worker s job rest outcome at e
      | inl no_working ↦ absurd (none_busy s no_accepted no_spawning no_working busy)
    ]
  ]
]

-- The coordinator does not get stuck: from every reachable state whose status is active, the
-- threads can go on to a state in which the refresh has ended with any given outcome.
pub Reach-settles :
    {s : System}
    → Reach start s
    → is_active s.state.status ≡ true
    → (outcome : RunOutcome) (at : ℤ)
    → (t : System) × Reach s t
      × (t.state ≡ finish s.state outcome at)
      × (is_active t.state.status ≡ false)
Reach-settles {s} r active outcome at =
    let (t, run, e) = settle s outcome at (ground (arith, (Reach-Inv r).single)) in
    (t, run, e, rw e (is_active-finish s.state outcome at))
