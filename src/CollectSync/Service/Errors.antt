-- ===== src/CollectSync/Service/Errors.antt =====
-- `classify_remote_error` of service.rs, and the time of the next attempt.
pub mod Delay
use burnly.Prelude.{
  ◌≡◌, ◌≤◌, ◌<◌, ℕ, ◌+◌, ◌-◌, ◌*◌, Bool, true, false, not, ◌||◌, Option, none, some, List, [], ◌∷◌,
  ◌++◌, any, leb, min, i64_max, if◌then◌else◌, arith,
}
use burnly.Prelude.Text.{Text, text, text_eq}
use burnly.Prelude.Int.{ℤ, pos, negsuc, ◌≤ℤ◌}
use burnly.CollectSync.Service.{
  CollectSyncRemoteError, network, timeout, unauthorized, forbidden, validation, rate_limited,
  device_not_found, contract_unsupported, idempotency_in_progress, conflict, payload_too_large,
  problem, decode, internal,
}

-- The tuple that `classify_remote_error` returns.
pub record Classification : Type 0 where
  pub code : Text
  pub message : Text
  pub retryable : Bool
  pub backoff_ms : ℕ

abbrev classified : Text → Text → Bool → ℕ → Classification
classified code message retryable backoff_ms = record {
  code = code;
  message = message;
  retryable = retryable;
  backoff_ms = backoff_ms;
}

abbrev value_or : Option Text → Text → Text
value_or none default = default
value_or (some value) default = value

-- `i64::try_from(seconds).unwrap_or(60).saturating_mul(1_000)`, or 15 seconds.
abbrev pub rate_limit_ms : Option ℕ → ℕ
rate_limit_ms none = 15000
rate_limit_ms (some seconds) = if leb seconds i64_max then min (seconds * 1000) i64_max else 60000

-- `code.is_none_or(|value| !matches!(value, …))`
abbrev pub is_retryable_problem : Option Text → Bool
is_retryable_problem none = true
is_retryable_problem (some value) = not (
    any (text_eq value)
      (text "VALIDATION_FAILED" ∷ text "SYNC_CONTRACT_UNSUPPORTED" ∷ text "FORBIDDEN" ∷ []))

unfoldable pub classify_remote_error : CollectSyncRemoteError → Classification
classify_remote_error (network message) = classified (text "NETWORK") message true 5000
classify_remote_error (timeout message) = classified (text "TIMEOUT") message true 5000
classify_remote_error (rate_limited _ message retry_after_seconds) =
    classified (text "RATE_LIMITED") message true (rate_limit_ms retry_after_seconds)
classify_remote_error (idempotency_in_progress message) =
    classified (text "IDEMPOTENCY_IN_PROGRESS") message true 2000
classify_remote_error (unauthorized code message) =
    classified (text "UNAUTHORIZED")
      (message ++ (text " (" ++ (value_or code (text "?") ++ text ")"))) false 0
classify_remote_error (validation _ message _) =
    classified (text "VALIDATION_FAILED") message false 0
classify_remote_error (contract_unsupported message) =
    classified (text "SYNC_CONTRACT_UNSUPPORTED") message false 0
classify_remote_error (device_not_found message) =
    classified (text "SYNC_DEVICE_NOT_FOUND") message true 1000
classify_remote_error (conflict _ message) = classified (text "CONFLICT") message false 0
classify_remote_error (payload_too_large message) =
    classified (text "PAYLOAD_TOO_LARGE") message false 0
classify_remote_error (forbidden _ message) = classified (text "FORBIDDEN") message false 0
classify_remote_error (problem code _ message _) =
    classified (text "PROBLEM") message (is_retryable_problem code)
      (if is_retryable_problem code then 5000 else 0)
classify_remote_error (decode message) = classified (text "DECODE") message false 0
classify_remote_error (internal message) = classified (text "INTERNAL") message true 5000

-- `i64::saturating_add` of a count.
unfoldable pub saturating_add_ms : ℤ → ℕ → ℤ
saturating_add_ms (pos a) n = pos (min (a + n) i64_max)
saturating_add_ms (negsuc a) n = if leb n a then negsuc (a - n) else pos (min (n - a - 1) i64_max)
