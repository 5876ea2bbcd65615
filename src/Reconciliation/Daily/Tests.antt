-- ===== src/Reconciliation/Daily/Tests.antt =====
-- Runs of the reconciliation of daily usage on concrete data.
use burnly.Prelude.{
  suc, ◌≤◌, ok, i64_max, ℕ, ◌≡◌, refl, arith, true, false, some, List, [], ◌∷◌, map, err,
}
use burnly.Prelude.Text.{Text, text}
use burnly.Prelude.Sql.{is_filled}
use burnly.Prelude.Int.{pos}
use burnly.Collection.Candidate.{DailyUsageCandidate}
use burnly.Refresh.Execution.Ports.{ReconciliationRequest}
use burnly.Reconciliation.{
  UsageStoreError, DailyReconciliationSummary, backend, token_columns, daily_cost_columns,
  model_cost_columns, should_evaluate_absence,
}
use burnly.Reconciliation.Tables.{
  is_daily, Tables, DailyUsage, DailyRow, ModelRow, RecordState, active, missing, removed,
  daily_checks, content_checks, life_checks, model_checks, daily_model_checks,
}
use burnly.Reconciliation.Tables.Statements.{
  upsert_daily, upsert_model, insert_daily_model, delete_daily_models, update_daily,
}
use burnly.Reconciliation.Daily.{
  reconcile_daily, reconcile_candidates, reconcile_candidate, upsert_daily_usage,
  replace_model_breakdowns, insert_models, insert_daily_model_usage, resolve_model, usage_of,
  evaluate_absences, advance_absences, summary_of,
}
use burnly.Reconciliation.Tables.Lookup.{usage_at}
use burnly.Reconciliation.Daily.Clock.{reconcile_daily-clock_back}
use burnly.Reconciliation.Daily.Accepted.{TokensFit}
use burnly.Reconciliation.Daily.Names.{IsUnused}
use burnly.Reconciliation.Daily.Succeeds.{IsAccepted, reconcile_daily_succeeds}
use burnly.Reconciliation.Daily.Writes.{IsOpen}
use burnly.Reconciliation.Daily.Refines.{IsReconciled, reconcile_daily-refines}
use burnly.Reconciliation.Daily.Samples.{
  fresh, total, fresh_above, display, tokens, usage, row, tables, candidate, sample,
}

total_bound : (n : ℕ) (rows : List ModelRow) → total rows ≤ n → IsUnused (pos (suc n)) rows
total_bound n [] h = tt
total_bound n (row ∷ rows) h = (ground arith, total_bound n rows (omega arith))

fresh_above-IsUnused : (rows : List ModelRow) → IsUnused (fresh_above.of_model rows) rows
fresh_above-IsUnused rows = total_bound (total rows) rows (omega arith)

abbrev states : Tables → List (Text × RecordState × ℕ)
states t =
    map
      (λ r. (
        DailyRow.source_key r,
        DailyUsage.record_state (DailyRow.usage r),
        DailyUsage.absence_count (DailyRow.usage r),
      ))
      t.daily

-- What was active is missing, what was missing is removed, and the candidates are active. A commit
-- that fails leaves the tables.
reconciled :
    (states (reconcile_daily fresh display true true sample tables).1
      ≡ (text "a", missing, 1)
        ∷ (text "b", removed, 2)
        ∷ (text "c", active, 0)
        ∷ (text "d", active, 0)
        ∷ [])
    × (reconcile_daily fresh display true false sample tables ≡ (err backend, tables))
unfolding reconcile_daily reconcile_candidates reconcile_candidate upsert_daily_usage
    replace_model_breakdowns insert_models insert_daily_model_usage resolve_model usage_of
    evaluate_absences advance_absences summary_of upsert_daily upsert_model insert_daily_model
    delete_daily_models update_daily daily_checks model_checks daily_model_checks token_columns
    daily_cost_columns model_cost_columns should_evaluate_absence
reconciled = (refl, refl)

reconcile_daily-refines_example :
    IsReconciled fresh display sample tables (reconcile_daily fresh display true true sample tables)
reconcile_daily-refines_example =
    reconcile_daily-refines fresh display sample true true tables
      (ground arith, (ground arith, (ground arith, tt)))

-- The clock says 15, and the missing record has been seen at 20.
abbrev early : ReconciliationRequest DailyUsageCandidate
early = record sample { observed_at_ms = pos 15 }

b_missing : usage_at (pos 1) (text "b") tables.daily ≡ some (usage missing 1)
unfolding is_daily
b_missing = refl

reconcile_daily-clock_back_example :
    (e : UsageStoreError) × (reconcile_daily fresh display true true early tables ≡ (err e, tables))
reconcile_daily-clock_back_example =
    reconcile_daily-clock_back fresh display early true true tables (text "b") (usage missing 1)
      refl (ground arith) refl b_missing (refl, ground arith, refl)

-- A table with the model of the candidates, which is seen again.
abbrev with_model : Tables
with_model = record tables {
  models =
      record {
        id = pos 4;
        source_id = pos 1;
        raw_model_id = text "m";
        first_seen_at_ms = pos 5;
        last_seen_at_ms = pos 6;
      }
      ∷ [];
}

with_model-IsOpen : IsOpen sample.source_id sample.import_run_id sample.observed_at_ms with_model
unfolding daily_checks content_checks life_checks model_checks
with_model-IsOpen =
    (refl, refl, ((refl, refl), ((refl, refl), ((refl, refl), tt))), (refl, tt), (tt, tt))

tokens-Fit : TokensFit tokens
tokens-Fit = (ground arith, ground arith, tt, tt, ground arith, tt)

nine-Fits : 9 ≤ i64_max
nine-Fits = ground arith

candidate-IsAccepted : (key : Text) → is_filled key ≡ true → IsAccepted display (candidate key)
candidate-IsAccepted key h = (
  (tokens-Fit, (nine-Fits, refl), h, refl, refl),
  ((refl, tokens-Fit, (nine-Fits, refl)), tt),
  (tt, tt),
)

reconcile_daily_succeeds_example :
    (summary : DailyReconciliationSummary) × (tables' : Tables) × (reconcile_daily fresh_above
        display true true sample with_model
      ≡ (ok summary, tables'))
reconcile_daily_succeeds_example =
    reconcile_daily_succeeds fresh_above display sample with_model refl fresh_above-IsUnused
      (ground arith)
      (candidate-IsAccepted (text "c") refl, (candidate-IsAccepted (text "d") refl, tt))
      with_model-IsOpen
