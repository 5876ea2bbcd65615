-- ===== src/Collectors/UsageFold.antt =====
-- The usage replacement fold of
-- src-tauri/src/infrastructure/collectors/deepseek_harness/usage_fold.rs, over the events of
-- event_parser.rs beside it.
pub mod Contributions
use burnly.Prelude.{
  ℕ, zero, suc, ◌+◌, ◌-◌, Bool, true, false, ◌&&◌, Option, none, some, List, [], ◌∷◌, ◌++◌, length,
  ◌==◌, if◌then◌else◌,
}
use burnly.Prelude.Text.{Text}
use burnly.Prelude.Int.{ℤ}
use burnly.Domain.TokenUsage.{TokenUsage}

pub record SessionModelRoute : Type 0 where
  pub provider : Text
  pub model : Text

pub data UsageSettlementKind : Type 0 where
  assistant_message assistant_attempt : UsageSettlementKind

pub record UsageEvent : Type 0 where
  pub seq : ℕ
  pub observed_at_ms : ℤ
  pub turn : ℕ
  pub step : ℕ
  pub kind : UsageSettlementKind
  pub route : Option SessionModelRoute
  pub tokens : TokenUsage

pub data SessionEvent : Type 0 where
  usage : UsageEvent → SessionEvent
  route_seen : SessionModelRoute → SessionEvent
  retry_started : ℕ → ℕ → SessionEvent

pub record UsageObservation : Type 0 where
  pub seq : ℕ
  pub observed_at_ms : ℤ
  pub turn : ℕ
  pub step : ℕ
  pub route : Option SessionModelRoute
  pub tokens : TokenUsage

-- The derived `==` of `TokenUsage`.
abbrev same_count : Option ℕ → Option ℕ → Bool
same_count none none = true
same_count (some m) (some n) = m == n
same_count _ _ = false

pub same_tokens : TokenUsage → TokenUsage → Bool
same_tokens s t =
    same_count s.input_tokens t.input_tokens
    && same_count s.output_tokens t.output_tokens
    && same_count s.cache_creation_tokens t.cache_creation_tokens
    && same_count s.cache_read_tokens t.cache_read_tokens
    && s.total_tokens == t.total_tokens
    && same_count s.unclassified_tokens t.unclassified_tokens

abbrev or_route : Option SessionModelRoute → Option SessionModelRoute → Option SessionModelRoute
or_route (some route) other = some route
or_route none other = other

-- `resolved_route`
abbrev pub resolved_route_of :
    UsageSettlementKind
    → Option SessionModelRoute
    → Option SessionModelRoute
    → Option SessionModelRoute
resolved_route_of UsageSettlementKind.assistant_message route current_route = route
resolved_route_of UsageSettlementKind.assistant_attempt route current_route =
    or_route route current_route

abbrev pub resolved_route : UsageEvent → Option SessionModelRoute → Option SessionModelRoute
resolved_route event current_route = resolved_route_of event.kind event.route current_route

-- The observation of one usage event.
abbrev pub observe : UsageEvent → Option SessionModelRoute → UsageObservation
observe event current_route = record {
  seq = event.seq;
  observed_at_ms = event.observed_at_ms;
  turn = event.turn;
  step = event.step;
  route = resolved_route event current_route;
  tokens = event.tokens;
}

-- Indexing and assignment, `none` where they panic.
abbrev pub get_at : ℕ → List UsageObservation → Option UsageObservation
get_at n [] = none
get_at zero (x ∷ xs) = some x
get_at (suc n) (x ∷ xs) = get_at n xs

abbrev cons_to : UsageObservation → Option (List UsageObservation) → Option (List UsageObservation)
cons_to x none = none
cons_to x (some xs) = some (x ∷ xs)

abbrev pub set_at : ℕ → UsageObservation → List UsageObservation → Option (List UsageObservation)
set_at n y [] = none
set_at zero y (x ∷ xs) = some (y ∷ xs)
set_at (suc n) y (x ∷ xs) = cons_to x (set_at n y xs)

-- The variables of the loop.
pub record Fold : Type 0 where
  pub observations : List UsageObservation
  pub current_route : Option SessionModelRoute
  pub last_contribution : Option ℕ

abbrev pub same_slot : UsageObservation → ℕ → ℕ → Bool
same_slot previous turn step = previous.turn == turn && previous.step == step

abbrev pub push : Fold → UsageEvent → Fold
push fold event = record {
  observations = fold.observations ++ observe event fold.current_route ∷ [];
  current_route = fold.current_route;
  last_contribution = some (length fold.observations);
}

abbrev with_observations : Fold → Option (List UsageObservation) → Option Fold
with_observations fold none = none
with_observations fold (some observations) = some (record fold { observations = observations })

-- The two arms that look at the previous contribution.
pub on_retry : Fold → ℕ → ℕ → Option Fold
on_retry fold turn step = elim fold.last_contribution [
  | none ↦ some fold
  | some index ↦ elim (get_at index fold.observations) [
    | none ↦ none
    | some previous ↦
        if same_slot previous turn step
        then some (record fold { last_contribution = none })
        else some fold
  ]
]

pub on_usage : Fold → UsageEvent → Option Fold
unfolding same_tokens
on_usage fold event = elim fold.last_contribution [
  | none ↦ some (push fold event)
  | some index ↦ elim (get_at index fold.observations) [
    | none ↦ none
    | some previous ↦
        if same_slot previous event.turn event.step
        then if same_tokens previous.tokens event.tokens
          then some fold
          else with_observations fold
              (set_at index (observe event fold.current_route) fold.observations)
        else some (push fold event)
  ]
]

abbrev pub on_event : Fold → SessionEvent → Option Fold
unfolding on_usage on_retry
on_event fold (route_seen route) = some (record fold { current_route = some route })
on_event fold (retry_started turn step) = on_retry fold turn step
on_event fold (usage event) = on_usage fold event

pub fold_from : Fold → List SessionEvent → Option (List UsageObservation)
unfolding on_event
fold_from fold [] = some fold.observations
fold_from fold (event ∷ events) = elim (on_event fold event) [
  | none ↦ none
  | some fold' ↦ fold_from fold' events
]

unfoldable pub fold_events : List SessionEvent → Option (List UsageObservation)
unfolding fold_from
fold_events events =
    fold_from (record { observations = []; current_route = none; last_contribution = none }) events
