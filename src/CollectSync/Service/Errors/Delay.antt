-- ===== src/CollectSync/Service/Errors/Delay.antt =====
-- The time of the next attempt after an error of the cloud.
use burnly.Prelude.{◌≡◌, ◌≢◌, ◌≤◌, ◌+◌, ◌*◌, ℕ, none, some, i64_max, min, ◌⊎◌, if◌then◌else◌, leb}
use burnly.Prelude.Text.{Text, text}
use burnly.Prelude.Int.{ℤ, pos, pos_part, neg_part}
use burnly.CollectSync.Service.{
  CollectSyncRemoteError, StepResult, network, timeout, unauthorized, forbidden, validation,
  rate_limited, device_not_found, contract_unsupported, idempotency_in_progress, conflict,
  payload_too_large, problem, decode, internal,
}
use burnly.CollectSync.Service.Errors.{classify_remote_error, saturating_add_ms}
use burnly.CollectSync.Service.Ports.{CollectSync}

-- The errors after which the same request may succeed later: the cloud could not be reached, has to
-- do with something else first, or lost the device; or an unknown problem.
abbrev pub IsTransient : CollectSyncRemoteError → Type 0
IsTransient (network message) = Unit
IsTransient (timeout message) = Unit
IsTransient (rate_limited code message retry_after_seconds) = Unit
IsTransient (idempotency_in_progress message) = Unit
IsTransient (device_not_found message) = Unit
IsTransient (internal message) = Unit
IsTransient (problem none status message request_id) = Unit
IsTransient (problem (some code) status message request_id) =
    (code ≢ text "VALIDATION_FAILED")
    × (code ≢ text "SYNC_CONTRACT_UNSUPPORTED")
    × (code ≢ text "FORBIDDEN")
IsTransient (unauthorized code message) = ⊥
IsTransient (forbidden code message) = ⊥
IsTransient (validation code message fields) = ⊥
IsTransient (contract_unsupported message) = ⊥
IsTransient (conflict code message) = ⊥
IsTransient (payload_too_large message) = ⊥
IsTransient (decode message) = ⊥

-- The milliseconds to wait at least and at most: those that the cloud asks for, if it does and they
-- are an `i64`; a minute if they are not; else between one second and fifteen.
abbrev asked_ms : ℕ → ℕ
asked_ms seconds = if leb seconds i64_max then min (seconds * 1000) i64_max else 60000

abbrev pub least_ms : CollectSyncRemoteError → ℕ
least_ms (rate_limited code message (some seconds)) = asked_ms seconds
least_ms _ = 1000

abbrev pub most_ms : CollectSyncRemoteError → ℕ
most_ms (rate_limited code message (some seconds)) = asked_ms seconds
most_ms _ = 15000

-- A time from `least` to `most` milliseconds after now, or the last one that fits an `i64`.
abbrev pub IsDue : ℤ → ℕ → ℕ → ℤ → Type 0
IsDue now_ms least most until_ms =
    ((pos_part now_ms + neg_part until_ms + least ≤ pos_part until_ms + neg_part now_ms)
      ⊎ (until_ms ≡ pos i64_max))
    × (pos_part until_ms + neg_part now_ms ≤ pos_part now_ms + neg_part until_ms + most)
    × (pos_part until_ms ≤ i64_max)

-- What a step ends with after an error: a later attempt, or none.
abbrev pub IsNextAttempt : ℤ → CollectSyncRemoteError → StepResult → Type 0
IsNextAttempt now_ms e (StepResult.backoff until_ms) =
    IsTransient e × IsDue now_ms (least_ms e) (most_ms e) until_ms
IsNextAttempt now_ms e StepResult.terminal = ¬ IsTransient e
IsNextAttempt now_ms e _ = ⊥

-- The result by the classification.
abbrev next_attempt : ℤ → CollectSyncRemoteError → StepResult
next_attempt now_ms e =
    let c = classify_remote_error e in
    if c.retryable
    then StepResult.backoff (saturating_add_ms now_ms c.backoff_ms)
    else StepResult.terminal
