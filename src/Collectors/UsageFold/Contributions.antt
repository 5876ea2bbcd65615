-- ===== src/Collectors/UsageFold/Contributions.antt =====
-- The fold against a description without indices: one contribution is open at a time.
use burnly.Prelude.{
  ℕ, ◌≡◌, refl, sym, ap, ◌∙◌, Bool-cases, Option, none, some, List, [], ◌∷◌, ◌++◌, length,
  if◌then◌else◌, arith, inl, inr,
}
use burnly.Collectors.UsageFold.{
  SessionModelRoute, UsageEvent, SessionEvent, usage, route_seen, retry_started, UsageObservation,
  same_tokens, observe, get_at, set_at, Fold, same_slot, on_retry, on_usage, on_event, fold_from,
  fold_events,
}

-- What the events contribute. An open contribution is replaced by usage of its slot with other tokens, kept by
-- usage of its slot with the same tokens, and closed by a retry of its slot or by usage of another.
unfoldable pub contributions :
    Option SessionModelRoute → Option UsageObservation → List SessionEvent → List UsageObservation
unfolding same_tokens
contributions route none [] = []
contributions route (some current) [] = current ∷ []
contributions route current (route_seen other ∷ events) = contributions (some other) current events
contributions route none (retry_started turn step ∷ events) = contributions route none events
contributions route (some current) (retry_started turn step ∷ events) =
    let closed = contributions route none events in
    let kept = contributions route (some current) events in
    if same_slot current turn step then current ∷ closed else kept
contributions route none (usage event ∷ events) =
    contributions route (some (observe event route)) events
contributions route (some current) (usage event ∷ events) =
    let kept = contributions route (some current) events in
    let replaced = contributions route (some (observe event route)) events in
    if same_slot current event.turn event.step
    then if same_tokens current.tokens event.tokens then kept else replaced
    else current ∷ replaced

get_at-last :
    (xs : List UsageObservation) (x : UsageObservation) → get_at (length xs) (xs ++ x ∷ []) ≡ some x
get_at-last [] x = refl
get_at-last (y ∷ xs) x = get_at-last xs x

set_at-last :
    (xs : List UsageObservation) (x y : UsageObservation)
    → set_at (length xs) y (xs ++ x ∷ []) ≡ some (xs ++ y ∷ [])
set_at-last [] x y = refl
set_at-last (z ∷ xs) x y = ground (arith, set_at-last xs x y)

append_assoc :
    (xs : List UsageObservation) (y : UsageObservation) (ys : List UsageObservation)
    → (xs ++ y ∷ []) ++ ys ≡ xs ++ y ∷ ys
append_assoc [] y ys = refl
append_assoc (x ∷ xs) y ys = ap (λ zs. x ∷ zs) (append_assoc xs y ys)

append_empty : (xs : List UsageObservation) → xs ++ [] ≡ xs
append_empty [] = refl
append_empty (x ∷ xs) = ap (λ zs. x ∷ zs) (append_empty xs)

-- A loop state with no contribution open, and one whose last observation is open.
abbrev closed_fold : Option SessionModelRoute → List UsageObservation → Fold
closed_fold route done = record {
  observations = done;
  current_route = route;
  last_contribution = none;
}

abbrev open_fold : Option SessionModelRoute → List UsageObservation → UsageObservation → Fold
open_fold route done current = record {
  observations = done ++ current ∷ [];
  current_route = route;
  last_contribution = some (length done);
}

-- One event on an open contribution.
on_retry-open :
    (route : Option SessionModelRoute) (done : List UsageObservation) (current : UsageObservation)
    (turn step : ℕ)
    → on_retry (open_fold route done current) turn step ≡ (
        if same_slot current turn step
        then some (closed_fold route (done ++ current ∷ []))
        else some (open_fold route done current))
unfolding on_retry
on_retry-open route done current turn step = ground (arith, get_at-last done current)

on_usage-open :
    (route : Option SessionModelRoute) (done : List UsageObservation) (current : UsageObservation)
    (event : UsageEvent)
    → on_usage (open_fold route done current) event ≡ (
        if same_slot current event.turn event.step
        then if same_tokens current.tokens event.tokens
          then some (open_fold route done current)
          else some (open_fold route done (observe event route))
        else some (open_fold route (done ++ current ∷ []) (observe event route)))
unfolding on_usage
on_usage-open route done current event =
    ground (arith, get_at-last done current, set_at-last done current (observe event route))

abbrev fold_of : Option SessionModelRoute → List UsageObservation → Option UsageObservation → Fold
fold_of route done none = closed_fold route done
fold_of route done (some current) = open_fold route done current

fold_from-step :
    (fold fold' : Fold) (event : SessionEvent) (events : List SessionEvent)
    → on_event fold event ≡ some fold'
    → fold_from fold (event ∷ events) ≡ fold_from fold' events
unfolding fold_from
fold_from-step fold fold' event events h = ground arith

fold_from-eq :
    (route : Option SessionModelRoute) (done : List UsageObservation)
    (current : Option UsageObservation) (events : List SessionEvent)
    → fold_from (fold_of route done current) events
      ≡ some (done ++ contributions route current events)
unfolding fold_from contributions
fold_from-eq route done none [] = ap some (sym (append_empty done))
fold_from-eq route done (some current) [] = refl
fold_from-eq route done none (route_seen other ∷ events) =
    fold_from-eq (some other) done none events
fold_from-eq route done (some current) (route_seen other ∷ events) =
    fold_from-eq (some other) done (some current) events
fold_from-eq route done none (retry_started turn step ∷ events) =
    fold_from-eq route done none events
fold_from-eq route done (some current) (retry_started turn step ∷ events) =
    let closed = fold_from-eq route (done ++ current ∷ []) none events in
    let kept = fold_from-eq route done (some current) events in
    elim (Bool-cases (same_slot current turn step)) [
      | inl same ↦ rw same (
          fold_from-step (open_fold route done current) (closed_fold route (done ++ current ∷ []))
            (retry_started turn step) events
            (ground (arith, on_retry-open route done current turn step))
          ∙ closed
          ∙ ap some (append_assoc done current (contributions route none events)))
      | inr other ↦ rw other (
          fold_from-step (open_fold route done current) (open_fold route done current)
            (retry_started turn step) events
            (ground (arith, on_retry-open route done current turn step))
          ∙ kept)
    ]
fold_from-eq route done none (usage event ∷ events) =
    fold_from-eq route done (some (observe event route)) events
fold_from-eq route done (some current) (usage event ∷ events) =
    let kept = fold_from-eq route done (some current) events in
    let replaced = fold_from-eq route done (some (observe event route)) events in
    let pushed = fold_from-eq route (done ++ current ∷ []) (some (observe event route)) events in
    elim (Bool-cases (same_slot current event.turn event.step)) [
      | inr other ↦ rw other (
          fold_from-step (open_fold route done current)
            (open_fold route (done ++ current ∷ []) (observe event route)) (usage event) events
            (ground (arith, on_usage-open route done current event))
          ∙ pushed
          ∙ ap some
              (append_assoc done current (contributions route (some (observe event route)) events)))
      | inl same ↦ elim (Bool-cases (same_tokens current.tokens event.tokens)) [
        | inl equal ↦
            rw (same, equal)
              (fold_from-step (open_fold route done current) (open_fold route done current)
                  (usage event) events (ground (arith, on_usage-open route done current event))
                ∙ kept)
        | inr different ↦
            rw (same, different)
              (fold_from-step (open_fold route done current)
                  (open_fold route done (observe event route)) (usage event) events
                  (ground (arith, on_usage-open route done current event))
                ∙ replaced)
      ]
    ]

-- The fold never indexes out of range, and it returns what the events contribute when one contribution at a
-- time is open: usage of the slot that is open replaces it, or leaves it when its tokens are the same, and a
-- retry of that slot, or usage of another slot, closes it.
pub fold_events-eq-contributions :
    (events : List SessionEvent) → fold_events events ≡ some (contributions none none events)
unfolding fold_events
fold_events-eq-contributions events = fold_from-eq none [] none events
