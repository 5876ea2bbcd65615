-- ===== src/Refresh/Outcome.antt =====
-- src-tauri/src/application/refresh/outcome.rs, with `RefreshStatus` of state.rs and the run
-- outcomes of src-tauri/src/application/reconciliation/run.rs.
pub mod Aggregate
use burnly.Prelude.{
  ℕ, ◌+◌, ◌%◌, Bool, true, false, ◌&&◌, List, [], ◌∷◌, leb, ◌==◌, if◌then◌else◌, u32_max,
}
use burnly.Collection.Report.{CollectionOutcome}

pub data RefreshStatus : Type 0 where
  idle queued running cancelling succeeded partial failed : RefreshStatus

-- `RefreshStatus::is_active`
abbrev pub is_active : RefreshStatus → Bool
is_active RefreshStatus.queued = true
is_active RefreshStatus.running = true
is_active RefreshStatus.cancelling = true
is_active _ = false

pub data RefreshOutcome : Type 0 where
  succeeded partial failed cancelled : RefreshOutcome

pub data ImportOutcome : Type 0 where
  succeeded partial failed cancelled : ImportOutcome

pub data RunOutcome : Type 0 where
  succeeded partial failed : RunOutcome

-- `RunOutcome::from_collection`, `status`, `refresh_outcome` and `import_outcome`
abbrev pub from_collection : CollectionOutcome → RunOutcome
from_collection CollectionOutcome.partial = RunOutcome.partial
from_collection CollectionOutcome.complete = RunOutcome.succeeded
from_collection CollectionOutcome.empty = RunOutcome.succeeded

abbrev pub status : RunOutcome → RefreshStatus
status RunOutcome.succeeded = RefreshStatus.succeeded
status RunOutcome.partial = RefreshStatus.partial
status RunOutcome.failed = RefreshStatus.failed

abbrev pub refresh_outcome : RunOutcome → RefreshOutcome
refresh_outcome RunOutcome.succeeded = RefreshOutcome.succeeded
refresh_outcome RunOutcome.partial = RefreshOutcome.partial
refresh_outcome RunOutcome.failed = RefreshOutcome.failed

abbrev pub import_outcome : RunOutcome → ImportOutcome
import_outcome RunOutcome.succeeded = ImportOutcome.succeeded
import_outcome RunOutcome.partial = ImportOutcome.partial
import_outcome RunOutcome.failed = ImportOutcome.failed

-- The counters are `u16`, and an addition in a release build wraps.
pub record TargetRunAccumulator : Type 0 where
  pub succeeded : ℕ
  pub partial : ℕ
  pub failed : ℕ

abbrev pub no_targets : TargetRunAccumulator
no_targets = record { succeeded = 0; partial = 0; failed = 0 }

abbrev u16_add_one : ℕ → ℕ
u16_add_one n = (n + 1) % 65536

-- `TargetRunAccumulator::record`
unfoldable pub record_outcome : TargetRunAccumulator → RunOutcome → TargetRunAccumulator
record_outcome acc RunOutcome.succeeded = record acc { succeeded = u16_add_one acc.succeeded }
record_outcome acc RunOutcome.partial = record acc { partial = u16_add_one acc.partial }
record_outcome acc RunOutcome.failed = record acc { failed = u16_add_one acc.failed }

-- `TargetRunAccumulator::outcome`
unfoldable pub outcome : TargetRunAccumulator → RunOutcome
outcome acc =
    if acc.failed == 0 && acc.partial == 0
    then RunOutcome.succeeded
    else if acc.succeeded == 0 && acc.partial == 0
    then RunOutcome.failed
    else RunOutcome.partial

-- The calls of `record` that a refresh makes, in order.
unfoldable pub record_all : TargetRunAccumulator → List RunOutcome → TargetRunAccumulator
unfolding record_outcome
record_all acc [] = acc
record_all acc (r ∷ rs) = record_all (record_outcome acc r) rs

-- `clamp_count`
abbrev pub clamp_count : ℕ → ℕ
clamp_count value = if leb value u32_max then value else u32_max
