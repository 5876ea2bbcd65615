-- ===== src/Reconciliation/Daily/Samples.antt =====
-- Tables and requests for runs of the reconciliation of daily usage.
use burnly.Prelude.{suc, ℕ, ◌+◌, none, some, List, [], ◌∷◌, length}
use burnly.Prelude.Text.{Text, text}
use burnly.Prelude.Int.{pos, pos_part}
use burnly.Domain.Source.{SourceKey}
use burnly.Domain.TokenUsage.{TokenUsage}
use burnly.Domain.Cost.{CostKind, ValuedCostStatus, valued, DataQuality}
use burnly.Domain.Identity.{NaiveDate}
use burnly.Collection.Request.{full}
use burnly.Collection.Report.{CollectionOutcome}
use burnly.Collection.Candidate.{DailyUsageCandidate}
use burnly.Refresh.Execution.Ports.{ReconciliationRequest}
use burnly.Reconciliation.Tables.{
  Tables, DailyUsage, DailyRow, ModelRow, RecordState, active, missing, FreshIds,
}

abbrev pub fresh : FreshIds
fresh = record {
  of_model = λ rows. pos (length rows + 1);
  of_daily = λ rows. pos (length rows + 1);
}

-- An id that is above the others.
abbrev pub total : List ModelRow → ℕ
total [] = 0
total (row ∷ rows) = pos_part row.id + total rows

abbrev pub fresh_above : FreshIds
fresh_above = record {
  of_model = λ rows. pos (suc (total rows));
  of_daily = λ rows. pos (length rows + 1);
}

abbrev pub display : NaiveDate → Text
display _ = text "2026-11-26"

abbrev pub tokens : TokenUsage
tokens = record {
  input_tokens = some 3;
  output_tokens = some 4;
  cache_creation_tokens = none;
  cache_read_tokens = none;
  total_tokens = 7;
  unclassified_tokens = none;
}

abbrev pub usage : RecordState → ℕ → DailyUsage
usage state absences = record {
  identity_version = 1;
  usage_date = text "2026-11-25";
  aggregation_timezone = text "UTC";
  tokens = record {
    input = some 1;
    output = none;
    cache_creation = none;
    cache_read = none;
    total = 1;
    unclassified = none;
  };
  cost = record {
    amount_micros = none;
    currency = none;
    kind = text "unknown";
    status = text "unavailable";
  };
  data_quality = text "complete";
  record_state = state;
  absence_count = absences;
  first_seen_at_ms = pos 10;
  last_seen_at_ms = pos 20;
  removed_at_ms = none;
  latest_import_id = pos 1;
}

abbrev pub row : ℕ → Text → RecordState → ℕ → DailyRow
row id key state absences = record {
  id = pos id;
  source_id = pos 1;
  source_key = key;
  usage = usage state absences;
}

abbrev pub tables : Tables
tables = record {
  sources = pos 1 ∷ [];
  imports = (pos 1, pos 1) ∷ (pos 2, pos 1) ∷ [];
  models = [];
  daily = row 1 (text "a") active 0 ∷ row 2 (text "b") missing 1 ∷ row 3 (text "c") active 0 ∷ [];
  daily_models = [];
}

abbrev pub candidate : Text → DailyUsageCandidate
candidate key = record {
  provenance = record {
    source = SourceKey.codex;
    collector = record { value = text "codex" };
    collector_version = text "1";
    profile_version = 1;
    collection_id = record { value = text "id" };
    observed_at = 5;
    data_quality = DataQuality.complete;
    warnings = [];
  };
  source_key = key;
  usage_date = 5;
  aggregation_timezone = text "UTC";
  tokens = tokens;
  cost =
      valued 9 (record { value = text "USD" }) CostKind.burnly_calculated
        ValuedCostStatus.estimated;
  model_breakdowns =
      record {
        raw_model_id = text "m";
        tokens = tokens;
        cost =
            valued 9 (record { value = text "USD" }) CostKind.burnly_calculated
              ValuedCostStatus.estimated;
      }
      ∷ [];
}

abbrev pub sample : ReconciliationRequest DailyUsageCandidate
sample = record {
  source_id = record { value = pos 1 };
  import_run_id = record { value = pos 2 };
  scope = full;
  outcome = CollectionOutcome.complete;
  observed_at_ms = pos 30;
  candidates = candidate (text "c") ∷ candidate (text "d") ∷ [];
}
