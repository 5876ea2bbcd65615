-- ===== src/Reconciliation/Daily/Succeeds.antt =====
-- A reconciliation of candidates that the columns can hold succeeds.
use burnly.Prelude.{
  suc, leb, ◌≡◌, ◌≤◌, refl, true, List, [], ◌∷◌, ok, arith, All, ap, inl, inr, Bool-cases, length,
  u32_max,
}
use burnly.Prelude.Text.{Text}
use burnly.Prelude.Int.{ℤ, pos, leb_ℤ}
use burnly.Domain.Identity.{NaiveDate}
use burnly.Collection.Candidate.{DailyUsageCandidate}
use burnly.Refresh.Runs.{SourceId, ImportRunId}
use burnly.Refresh.Execution.Ports.{ReconciliationRequest}
use burnly.Reconciliation.{DailyReconciliationSummary, should_evaluate_absence}
use burnly.Reconciliation.Tables.{Tables, ModelRow, FreshIds}
use burnly.Reconciliation.Tables.Statements.{without, delete_daily_models}
use burnly.Reconciliation.Daily.{
  upsert_daily_usage, replace_model_breakdowns, reconcile_candidate, reconcile_candidates,
  evaluate_absences, summary_of, reconcile_daily_in_transaction, reconcile_daily,
}
use burnly.Reconciliation.Daily.Ready.{IsStorable, usage_of-fits}
use burnly.Reconciliation.Daily.Rows.{upsert_daily_succeeds, advance_absences_succeeds}
use burnly.Reconciliation.Daily.Names.{IsUnused}
use burnly.Reconciliation.Daily.Writes.{IsModelStorable, IsOpen}
use burnly.Reconciliation.Daily.Inserts.{AreDistinct, insert_models_succeeds, without-IsNamed}

-- The columns can hold the candidate and its breakdowns, which are of different models.
abbrev pub IsAccepted : (NaiveDate → Text) → DailyUsageCandidate → Type 0
IsAccepted display candidate =
    IsStorable display candidate
    × All IsModelStorable candidate.model_breakdowns
    × AreDistinct candidate.model_breakdowns

module _ (fresh : FreshIds) (display : NaiveDate → Text) where
  module _ (s : SourceId) (i : ImportRunId) (now : ℤ) where
    candidate_succeeds :
        (candidate : DailyUsageCandidate) (tables : Tables)
        → leb_ℤ (pos 0) now ≡ true
        → ((rows : List ModelRow) → IsUnused (fresh.of_model rows) rows)
        → IsAccepted display candidate
        → IsOpen s i now tables
        → (tables' : Tables) × (reconcile_candidate fresh display s i now candidate tables
            ≡ ok (tt, tables'))
          × IsOpen s i now tables'
    unfolding reconcile_candidate upsert_daily_usage replace_model_breakdowns delete_daily_models
    candidate_succeeds candidate tables h unused (storable, models, distinct)
          (source, import, ready, seen, ids) =
        let (u, made, by, at, content, life) =
          usage_of-fits fresh display i now candidate h storable in
        let (id, rows, done, ready', refers) =
          upsert_daily_succeeds fresh now s.value candidate.source_key u tables content life at
            source (rw by import) ready in
        let (tables', done', opened) =
          insert_models_succeeds s i fresh display now id candidate.model_breakdowns
            (record tables { daily = rows; daily_models = without id tables.daily_models }) h unused
            models distinct refers
            (without-IsNamed s id tables.models candidate.model_breakdowns tables.daily_models)
            (source, import, ready', seen, ids) in
        (tables', rw made (rw done done'), opened)

    candidates_succeed :
        (candidates : List DailyUsageCandidate) (tables : Tables)
        → leb_ℤ (pos 0) now ≡ true
        → ((rows : List ModelRow) → IsUnused (fresh.of_model rows) rows)
        → All (IsAccepted display) candidates
        → IsOpen s i now tables
        → (keys : List Text) × (tables' : Tables) × (reconcile_candidates fresh display s i now
              candidates tables
            ≡ ok (keys, tables'))
          × (length keys ≡ length candidates)
          × IsOpen s i now tables'
    unfolding reconcile_candidates
    candidates_succeed [] tables h unused accepted opened = ([], tables, refl, refl, opened)
    candidates_succeed (candidate ∷ candidates) tables h unused (a, accepted) opened =
        let (tables1, done, opened1) = candidate_succeeds candidate tables h unused a opened in
        let (keys, tables2, done', counted, opened2) =
          candidates_succeed candidates tables1 h unused accepted opened1 in
        (candidate.source_key ∷ keys, tables2, rw (done, done') refl, ap suc counted, opened2)

  module _ (request : ReconciliationRequest DailyUsageCandidate) where
    absences_succeed :
        (tables : Tables)
        → IsOpen request.source_id request.import_run_id request.observed_at_ms tables
        → (tables' : Tables) × (evaluate_absences fresh display request tables ≡ ok (tt, tables'))
    unfolding evaluate_absences
    absences_succeed tables (_, _, ready, _, _) =
        elim (Bool-cases (should_evaluate_absence request.scope request.outcome)) [
          | inl e ↦
              let (tables', done) =
                advance_absences_succeeds request.observed_at_ms request.source_id
                  request.import_run_id tables ready in
              (tables', rw e done)
          | inr e ↦ (tables, rw e refl)
        ]

    transaction_succeeds :
        (tables : Tables)
        → leb_ℤ (pos 0) request.observed_at_ms ≡ true
        → ((rows : List ModelRow) → IsUnused (fresh.of_model rows) rows)
        → length request.candidates ≤ u32_max
        → All (IsAccepted display) request.candidates
        → IsOpen request.source_id request.import_run_id request.observed_at_ms tables
        → (summary : DailyReconciliationSummary) × (tables' : Tables)
          × (reconcile_daily_in_transaction fresh display request tables ≡ ok (summary, tables'))
    unfolding reconcile_daily_in_transaction summary_of
    transaction_succeeds tables h unused few accepted opened =
        let (keys, tables1, done, counted, opened1) =
          candidates_succeed request.source_id request.import_run_id request.observed_at_ms
            request.candidates tables h unused accepted opened in
        let (tables2, done') = absences_succeed tables1 opened1 in
        let fits : leb (length keys) u32_max ≡ true = ground arith in
        (
          record { upserted_days = length keys; observed_source_keys = keys },
          tables2,
          rw done (rw done' (rw fits refl)),
        )

    -- When SQLite begins and commits the transaction, a reconciliation at a time that is not
    -- negative succeeds if: the id of a new model is not that of another; there are at most
    -- `u32::MAX` candidates; the columns can hold the candidates and their breakdowns, and the
    -- breakdowns of each are of different models; the request's source and import are there; the
    -- records there pass the CHECK clauses and have not been seen after that time; and the models
    -- pass theirs with that time as the last sight, and no two have one id.
    pub reconcile_daily_succeeds :
        (tables : Tables)
        → leb_ℤ (pos 0) request.observed_at_ms ≡ true
        → ((rows : List ModelRow) → IsUnused (fresh.of_model rows) rows)
        → length request.candidates ≤ u32_max
        → All (IsAccepted display) request.candidates
        → IsOpen request.source_id request.import_run_id request.observed_at_ms tables
        → (summary : DailyReconciliationSummary) × (tables' : Tables) × (reconcile_daily fresh
              display true true request tables
            ≡ (ok summary, tables'))
    unfolding reconcile_daily
    reconcile_daily_succeeds tables h unused few accepted opened =
        let (summary, tables', done) = transaction_succeeds tables h unused few accepted opened in
        (summary, tables', rw done refl)
