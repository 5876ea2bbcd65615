-- ===== src/Refresh/Tests.antt =====
-- Runs of the refresh subsystem on concrete data.
use burnly.Prelude.{
  u64_max, ℕ, ◌+◌, ◌-◌, ◌≡◌, ◌↔◌, ◌≤◌, ◌<◌, refl, true, false, Option, none, some, [], ◌∷◌, length,
  Result, ok, err, arith,
}
use burnly.Prelude.Text.{is_blank, is_whitespace, Text, text}
use burnly.Prelude.Int.{pos}
use burnly.Domain.Source.{same_source, SourceKey}
use burnly.Domain.Identity.{NaiveDate}
use burnly.Collection.Request.{
  CollectionProjection, full, incremental, IsOrdered, ProfileDescriptor, CollectionRequest,
}
use burnly.Refresh.Outcome.{RunOutcome, RefreshStatus, is_active, outcome, record_all, no_targets}
use burnly.Refresh.Outcome.Aggregate.{aggregate, outcome-eq-aggregate}
use burnly.Refresh.Planner.{
  RefreshPlanRequest, RefreshPlan, SuccessfulImportState, plan, daily_target, catch_up,
}
use burnly.Refresh.Planner.Scopes.{Covers, HasBaseline, plan_total, plan-full_iff, catch_up-no_gap}
use burnly.Refresh.Coordinator.{
  RefreshTrigger, RefreshScopePolicy, Job, System, CoordinatorState, start, take_id, accept, Reach,
  here, next, finish, request,
}
use burnly.Refresh.Coordinator.Single.{Inv, Reach-Inv}
use burnly.Refresh.Coordinator.Progress.{Reach-settles}
use burnly.Refresh.Coordinator.Ids.{handed_out, held, held-le_one}
use burnly.Pricing.Float.{FloatOps}
use burnly.Refresh.Runs.{RefreshRunSpec, job_key_new, refresh_run_spec_new, ImportRunLookup}
use burnly.Refresh.Target.{RefreshTarget, refresh_targets}
use burnly.Refresh.RequestPlan.{RequestPlanError, planned_collection_request}
use burnly.Refresh.RequestPlan.Planned.{IsAllowed, planned_request-cases}
use burnly.Refresh.Execution.Ports.{ExecutionResult, no_upload, ◌>>=◌, Ports, RefreshExecution}
use burnly.Refresh.Execution.{or_fail}
use burnly.Refresh.Execution.Round.{one_target}
use burnly.Refresh.Execution.Run.Closing.{IsClosed, execute_refresh-IsClosed}
use burnly.Refresh.Execution.Run.{execute_open_refresh, all_targets, execute_refresh}
use burnly.Refresh.Execution.Run.Terminal.{IsAnswer, execute_refresh-IsAnswer}

abbrev job : Job
job = record {
  id = record { now_ms = pos 5; sequence = 0 };
  trigger = RefreshTrigger.manual;
  policy = RefreshScopePolicy.full;
}

-- The system after one request has been accepted.
abbrev running : CoordinatorState
running = record {
  status = RefreshStatus.running;
  job_id = some job.id;
  trigger = some RefreshTrigger.manual;
  last_successful_refresh_at_ms = none;
}

abbrev one_request : System
one_request = record start { sequence = 1; requesting = job ∷ [] }

abbrev one_accepted : System
one_accepted = record start { sequence = 1; state = running; accepted = (job, running) ∷ [] }

abbrev reach_accepted : Reach start one_accepted
unfolding request
reach_accepted =
    next (next here (take_id (pos 5) RefreshTrigger.manual RefreshScopePolicy.full refl))
      (accept [] [] job refl refl refl)

Reach-Inv_example : Inv one_accepted
Reach-Inv_example = Reach-Inv reach_accepted

Reach-settles_example :
    (t : System) × Reach one_accepted t
    × (t.state ≡ finish one_accepted.state RunOutcome.partial (pos 9))
    × (is_active t.state.status ≡ false)
Reach-settles_example = Reach-settles reach_accepted refl RunOutcome.partial (pos 9)

few : handed_out reach_accepted ≤ u64_max
unfolding handed_out reach_accepted
few = omega arith

held-le_one_example :
    (held 0 one_accepted ≤ 1) × (1 ≤ held 0 one_accepted → 0 < handed_out reach_accepted)
held-le_one_example = held-le_one 0 reach_accepted few

outcome-eq-aggregate_example :
    outcome (record_all no_targets (RunOutcome.succeeded ∷ RunOutcome.failed ∷ []))
    ≡ aggregate (RunOutcome.succeeded ∷ RunOutcome.failed ∷ [])
outcome-eq-aggregate_example =
    outcome-eq-aggregate (RunOutcome.succeeded ∷ RunOutcome.failed ∷ []) (omega arith)

-- A calendar in which only days from 0 on exist.
abbrev sub_days : NaiveDate → ℕ → Option NaiveDate
sub_days d n = some (d - n)

abbrev import_until_100 : SuccessfulImportState
import_until_100 = record {
  source = SourceKey.codex;
  projection = CollectionProjection.daily;
  scope = incremental (record { start_date = 90; end_date = 100 });
  finished_at_ms = pos 7;
}

abbrev catch_up_at_105 : RefreshPlanRequest
catch_up_at_105 = record {
  target = daily_target SourceKey.codex (text "UTC");
  mode = catch_up;
  today = 105;
  previous_import = some import_until_100;
}

abbrev caught_up : RefreshPlan
caught_up = record {
  target = daily_target SourceKey.codex (text "UTC");
  scope = incremental (record { start_date = 98; end_date = 105 });
}

plan-caught_up : plan sub_days catch_up_at_105 ≡ some caught_up
unfolding plan
plan-caught_up = refl

plan_total_example :
    (p : RefreshPlan) × (plan sub_days catch_up_at_105 ≡ some p)
    × (p.target ≡ catch_up_at_105.target)
    × IsOrdered p.scope
    × Covers p.scope catch_up_at_105.today
plan_total_example = plan_total sub_days catch_up_at_105

plan-full_iff_example : (caught_up.scope ≡ full) ↔ (¬ HasBaseline catch_up_at_105)
plan-full_iff_example = plan-full_iff sub_days catch_up_at_105 caught_up plan-caught_up

sub_days-le : (d e : NaiveDate) (n : ℕ) → sub_days d n ≡ some e → e ≤ d
sub_days-le d e n h = ground arith

catch_up-no_gap_example : Covers caught_up.scope 102
catch_up-no_gap_example =
    catch_up-no_gap sub_days catch_up_at_105 sub_days-le caught_up import_until_100 100 102 refl
      refl refl plan-caught_up (omega arith) (omega arith)

abbrev target : RefreshTarget
target = record { source = SourceKey.antigravity; projection = CollectionProjection.daily }

abbrev profile : ProfileDescriptor
profile = record {
  collector = record { value = text "antigravity" };
  source = SourceKey.antigravity;
  profile_version = 1;
  supported_projections = CollectionProjection.daily ∷ CollectionProjection.session ∷ [];
}

abbrev local_date : ℕ → Text → Option NaiveDate
local_date instant timezone = some (instant + 100)

abbrev no_import : ImportRunLookup → Option (Option SuccessfulImportState)
no_import lookup = some none

planned_request-cases_example :
    (r : Result CollectionRequest RequestPlanError) × (planned_collection_request sub_days
        local_date no_import
        (some true)
        (text "refresh-1")
        target
        profile
        5
        (text "UTC")
        RefreshScopePolicy.freshness
      ≡ some r)
    × ((request : CollectionRequest)
        → r ≡ ok request
        → (request.source ≡ target.source)
          × (request.projection ≡ target.projection)
          × IsAllowed sub_days local_date no_import
              (some true)
              target
              profile
              5
              (text "UTC")
              RefreshScopePolicy.freshness
              request.scope)
planned_request-cases_example =
    planned_request-cases sub_days local_date no_import (some true) target profile 5 (text "UTC")
      (text "refresh-1") RefreshScopePolicy.freshness

-- Ports that know one profile, run no collector, and whose stores accept everything.
abbrev ports : Ports
ports = record {
  now_epoch_ms = λ calls. pos (length calls);
  describe = λ calls. some (profile ∷ []);
  begins_refresh = λ calls. some (record { value = pos 1 });
  resolves = λ calls. some (record { value = pos 2 });
  latest_successful_import = λ calls lookup. some none;
  requires_full_scope = λ calls. some false;
  collects =
      λ calls. err (record { code = text "collector.unavailable"; message = text "not installed" });
  begins_import = λ calls. some (record { value = pos 3 });
  succeeds = λ calls. true;
  timestamp = λ ms. some 5;
  checked_sub_days = sub_days;
  local_date = local_date;
  epoch = some 1;
  horizon = some 1000;
}

abbrev context : RefreshExecution
context = record { ports = ports; app_version = text "1.0"; aggregation_timezone = text "UTC" }

abbrev unit_floats : FloatOps
unit_floats = record {
  F64 = ℕ;
  zero_f = 0;
  half_f = 0;
  million_f = 1;
  of_u64 = λ n. n;
  as_u64 = λ x. x;
  add_f = λ x y. x + y;
  mul_f = λ x y. x;
  floor = λ x. x;
  is_finite = λ _. true;
  lt_f = λ x y. false;
}

execute_refresh-IsAnswer_example :
    IsAnswer unit_floats [] context RefreshScopePolicy.full
      (execute_refresh unit_floats [] context RefreshTrigger.manual RefreshScopePolicy.full
        (text "refresh-1")
        (pos 5)
        []).0
execute_refresh-IsAnswer_example =
    execute_refresh-IsAnswer unit_floats [] context RefreshScopePolicy.full RefreshTrigger.manual
      (text "refresh-1") (pos 5) []

abbrev spec : RefreshRunSpec
spec = record {
  job_key = record { value = text "refresh-1" };
  trigger = RefreshTrigger.manual;
  requested_by_app_version = text "1.0";
}

job_key_new-ok : job_key_new (text "refresh-1") ≡ ok (record { value = text "refresh-1" })
unfolding job_key_new is_blank is_whitespace
job_key_new-ok = refl

spec_new-ok :
    refresh_run_spec_new (record { value = text "refresh-1" }) RefreshTrigger.manual (text "1.0")
    ≡ ok spec
unfolding refresh_run_spec_new is_blank is_whitespace
spec_new-ok = refl

-- The result of a refresh whose collector knows no profile for the first target.
abbrev incomplete : ExecutionResult
incomplete = record {
  outcome = RunOutcome.failed;
  finished_at_ms = pos 1;
  usage_changed = false;
  committed_daily_upload = no_upload;
  target_outcomes = [];
}

execute_refresh-incomplete :
    (execute_refresh unit_floats [] context RefreshTrigger.manual RefreshScopePolicy.full
      (text "refresh-1")
      (pos 5)
      []).0
    ≡ some incomplete
unfolding execute_refresh execute_open_refresh all_targets one_target or_fail ◌>>=◌ job_key_new
    refresh_run_spec_new is_blank is_whitespace same_source refresh_targets
execute_refresh-incomplete = refl

execute_refresh-IsClosed_example :
    IsClosed context.ports.succeeds
      (record { value = pos 1 })
      incomplete
      (execute_refresh unit_floats [] context RefreshTrigger.manual RefreshScopePolicy.full
        (text "refresh-1")
        (pos 5)
        []).1
execute_refresh-IsClosed_example =
    execute_refresh-IsClosed unit_floats [] context RefreshTrigger.manual RefreshScopePolicy.full
      (text "refresh-1") (pos 5) [] (record { value = text "refresh-1" }) spec
      (record { value = pos 1 }) incomplete job_key_new-ok spec_new-ok refl
      execute_refresh-incomplete
