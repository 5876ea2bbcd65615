-- ===== src/CollectSync/Service/Tests.antt =====
-- Runs of the upload service on concrete data.
use burnly.Prelude.{◌≡◌, refl, true, false, none, some, [], ◌∷◌, ok, err, inl}
use burnly.Prelude.Text.{text}
use burnly.Prelude.Int.{pos}
use burnly.CollectSync.Store.{CollectSyncAccountKey, CollectSyncStoreError}
use burnly.CollectSync.Store.Tables.{Libraries, OutboxRow, StateRow}
use burnly.CollectSync.Store.State.{set_device_registration}
use burnly.CollectSync.Store.Registration.{set_device_registration-refuses}
use burnly.CollectSync.Service.{CollectSyncConfig, linux, DailyUsagePushResult, SyncDeviceSnapshot}
use burnly.CollectSync.Wire.{WireUploadScope}
use burnly.CollectSync.Service.Ports.{CollectSync, World, no_fault}
use burnly.CollectSync.Service.Worker.{run_worker}
use burnly.CollectSync.Service.Delivery.{IsDelivered}
use burnly.CollectSync.Service.Delivery.Running.{run_worker-delivers}

abbrev libraries : Libraries
libraries = record {
  to_json = λ stored. some (text "scope");
  from_json = λ json. none;
  display = λ date. date ∷ [];
  parse = λ value. none;
  fresh_id = λ rows. pos 9;
}

abbrev config : CollectSyncConfig
config = record {
  device_id = text "laptop";
  device_name = text "Laptop";
  app_version = text "1.0.0";
  platform = linux;
  reporting_timezone = text "UTC";
}

abbrev response : DailyUsagePushResult
response = record {
  client_device_id = text "laptop";
  accepted_at = text "2026-01-02T00:00:00Z";
  client_revision = pos 1;
  window_start = text "2026-01-01";
  window_end = text "2026-01-01";
  window_scope = WireUploadScope.full;
  counts = record { received = 1; upserted = 1; removed = 0; unchanged = 0; rejected = 0 };
}

abbrev device : SyncDeviceSnapshot
device = record {
  client_device_id = text "laptop";
  display_name = none;
  platform = text "linux";
  app_version = text "1.0.0";
  reporting_timezone = text "UTC";
  last_sync_at = none;
  created_at = [];
  updated_at = [];
}

-- A cloud that accepts every push, for a signed-in user.
abbrev accepting : CollectSync
accepting = record {
  config = config;
  libraries = libraries;
  request_json = λ request. some (text "{}");
  sha256_hex = λ value. text "hash";
  rfc3339 = λ ms. none;
  now_epoch_ms = λ calls. pos 50;
  signed_in_user = λ calls. some (text "user");
  running = λ calls. true;
  cancel = λ calls. false;
  epoch = λ calls. 1;
  active_user_id = λ calls. some (text "user");
  next_retry_not_before_ms = λ calls. none;
  new_uuid = λ calls. text "generation";
  batch_uuid = λ calls n. text "batch";
  fault = λ calls. no_fault;
  upsert_device = λ request calls. ok device;
  push_daily_usage = λ request calls. ok response;
  export_daily_facts = λ query calls. ok [];
}

abbrev account : CollectSyncAccountKey
account = record { user_id = text "user"; client_device_id = text "laptop" }

abbrev state : StateRow
state = record {
  user_id = text "user";
  client_device_id = text "laptop";
  next_client_revision = pos 2;
  baseline_status = text "in_progress";
  pending_scope_json = none;
  active_generation_id = some (text "generation");
  last_attempt_at_ms = none;
  last_accepted_at_ms = none;
  last_error_code = none;
  last_error_message = none;
  last_error_retryable = none;
  device_metadata_fingerprint = none;
  device_registered_revision = none;
  created_at_ms = pos 10;
  updated_at_ms = pos 10;
}

abbrev batch : OutboxRow
batch = record {
  id = pos 1;
  user_id = text "user";
  client_device_id = text "laptop";
  generation_id = text "generation";
  batch_index = 0;
  batch_count = 1;
  client_revision = pos 1;
  idempotency_key = text "key";
  request_body = text "{}";
  payload_hash = text "hash";
  window_scope = text "full";
  window_start = text "2026-01-01";
  window_end = text "2026-01-01";
  status = text "pending";
  created_at_ms = pos 10;
  accepted_at_ms = none;
}

abbrev world : World
world = record { tables = record { states = state ∷ []; outbox = batch ∷ [] }; calls = [] }

run_worker-delivers_example : IsDelivered batch (run_worker accepting 1 3 world).1
run_worker-delivers_example = run_worker-delivers accepting 1 3 batch world refl (inl refl)

set_device_registration-refuses_example :
    (e : CollectSyncStoreError) × (set_device_registration libraries account
        (text "invalidate")
        (pos 0)
        (pos 50)
        world.tables
      ≡ err e)
set_device_registration-refuses_example =
    set_device_registration-refuses libraries account (text "invalidate") (pos 50) world.tables
