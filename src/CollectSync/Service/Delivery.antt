-- ===== src/CollectSync/Service/Delivery.antt =====
-- The pending batches of the outbox over a step and a run of the worker of service.rs.
pub mod Marking
pub mod Sending
pub mod First
pub mod Steps
pub mod Running
use mathlib.Core.Path.{subst}
use burnly.Prelude.{
  ◌≡◌, refl, sym, ap, ◌∙◌, ◌⊎◌, inl, inr, ℕ, zero, suc, Bool, true, false, ◌&&◌, Option, none, some,
  List, [], ◌∷◌, In, Result, ok, err, length, arith, Bool-cases, if◌then◌else◌,
}
use burnly.Prelude.Text.{Text, text, text_eq, text_eq_iff}
use burnly.Prelude.Int.{ℤ, same_ℤ}
use burnly.CollectSync.Store.{CollectSyncAccountKey, CollectSyncStoreError, OutboxBatch}
use burnly.CollectSync.Store.Tables.{OutboxRow, Tables, is_batch_of}
use burnly.CollectSync.Store.Outbox.{
  keep, is_pending_of, is_to_accept, map_outbox_row, batch_of, parse_window_scope,
  mark_batch_accepted,
}
use burnly.CollectSync.Store.{parse_outbox_status, OutboxBatchStatus}
use burnly.CollectSync.Wire.{WireUploadScope}
use burnly.CollectSync.Store.Keeping.{After, HasRow}
use burnly.CollectSync.Store.Keeping.Acceptance.{
  keep-one, mark_accepted-Preserves, mark_accepted-one,
}
use burnly.CollectSync.Service.{PushDailyUsageRequest, DailyUsagePushResult}
use burnly.CollectSync.Service.Ports.{
  Call, pushed, stored, History, World, CollectSync, transact, transact_under, end, Fault, no_fault,
  rolled_back, half_done, after_call,
}
use burnly.CollectSync.Service.Send.{push_request}
use burnly.CollectSync.Service.Keeping.{IsStable}

-- The push of a row.
abbrev pub row_request : OutboxRow → PushDailyUsageRequest
row_request row = record {
  expected_user_id = row.user_id;
  request_body = row.request_body;
  idempotency_key = row.idempotency_key;
}

-- The cloud accepted a push of this request.
abbrev pub IsAccepted : PushDailyUsageRequest → History → Type 0
IsAccepted request calls =
    (response : DailyUsagePushResult) × In (pushed request (ok response)) calls

-- A row is still in the outbox, or the cloud accepted its request.
abbrev pub IsDelivered : OutboxRow → World → Type 0
IsDelivered row world = HasRow row world.tables ⊎ IsAccepted (row_request row) world.calls

abbrev pub IsPending : OutboxRow → Type 0
IsPending row = text_eq row.status (text "accepted") ≡ false

pub delivered-IsStable : (row : OutboxRow) → IsStable (IsDelivered row)
delivered-IsStable row = record {
  under_call = λ made world d. elim d [ inl i ↦ inl i | inr a ↦ inr (a.0, inr a.1) ];
  under_rows =
      λ tables world grows d. elim d [ inl i ↦ inl (grows row i) | inr a ↦ inr (a.0, inr a.1) ];
}

-- A batch was read from a row, which is pending for its account.
pub record IsBatchOf (account : CollectSyncAccountKey) (batch : OutboxBatch) (source : OutboxRow)
    : Type 0 where
  pub is_pending : is_pending_of account source ≡ true
  pub same_id : batch.id ≡ source.id
  pub same_body : batch.request_body ≡ source.request_body
  pub same_key : batch.idempotency_key ≡ source.idempotency_key

of_parsed :
    (account : CollectSyncAccountKey) (row : OutboxRow) (scope : Option WireUploadScope)
    (status : Option OutboxBatchStatus) (batch : OutboxBatch)
    → is_pending_of account row ≡ true
    → batch_of account row scope status ≡ ok batch
    → IsBatchOf account batch row
of_parsed account row none status batch p e = absurd (ground arith)
of_parsed account row (some scope) none batch p e = absurd (ground arith)
of_parsed account row (some scope) (some status) batch p e = record {
  is_pending = p;
  same_id = ground arith;
  same_body = ground arith;
  same_key = ground arith;
}

pub mapped-IsBatchOf :
    (account : CollectSyncAccountKey) (row : OutboxRow) (batch : OutboxBatch)
    → is_pending_of account row ≡ true
    → map_outbox_row account row ≡ ok batch
    → IsBatchOf account batch row
unfolding map_outbox_row
mapped-IsBatchOf account row batch p e = of_parsed account row _ _ batch p e

module _ (account : CollectSyncAccountKey) (batch : OutboxBatch) (source : OutboxRow)
    (origin : IsBatchOf account batch source) where
  open origin use {is_pending, same_id, same_body, same_key}

  -- The request that is pushed for the batch is that of the row.
  pub push_request-eq : push_request account batch ≡ row_request source
  unfolding is_pending_of is_batch_of
  push_request-eq =
      ground (arith, is_pending, same_body, same_key, text_eq_iff source.user_id account.user_id)

  same_ℤ_refl : (n : ℤ) → same_ℤ n n ≡ true
  same_ℤ_refl n = ground arith

  pub source-to_accept : is_to_accept account batch.id source ≡ true
  unfolding is_to_accept
  source-to_accept = ground (arith, is_pending, same_id, same_ℤ_refl source.id)
