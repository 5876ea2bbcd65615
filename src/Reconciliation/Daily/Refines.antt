-- ===== src/Reconciliation/Daily/Refines.antt =====
-- What a reconciliation makes of the usage under each key.
use mathlib.Core.Path.{subst}
use burnly.Prelude.{
  ◌≡◌, refl, Bool, true, false, List, [], ◌∷◌, map, Result, ok, err, arith, ap, sym, ◌∙◌, length,
}
use burnly.Prelude.Text.{Text}
use burnly.Prelude.Int.{ℤ, same_ℤ}
use burnly.Domain.Identity.{NaiveDate}
use burnly.Collection.Candidate.{DailyUsageCandidate}
use burnly.Refresh.Execution.Ports.{ReconciliationRequest}
use burnly.Reconciliation.{UsageStoreError, DailyReconciliationSummary}
use burnly.Reconciliation.Tables.{Tables, FreshIds}
use burnly.Reconciliation.Tables.Statements.{lift}
use burnly.Reconciliation.Tables.Lookup.{usage_at, continue-eq-ok}
use burnly.Reconciliation.Daily.{
  reconcile_candidates, evaluate_absences, summary_of, commit, reconcile_daily_in_transaction,
  reconcile_daily,
}
use burnly.Reconciliation.Daily.Loop.{reconcile_candidates_lem}
use burnly.Reconciliation.Daily.Keys.{IsAfter, IsNewImport, after, evaluate_absences_lem}

module _ (fresh : FreshIds) (display : NaiveDate → Text)
    (request : ReconciliationRequest DailyUsageCandidate) where
  -- What a reconciliation returns, with the tables that it leaves.
  abbrev pub IsReconciled :
      Tables → Result DailyReconciliationSummary UsageStoreError × Tables → Type 0
  IsReconciled tables (err _, tables') = tables' ≡ tables
  IsReconciled tables (ok summary, tables') =
      (summary.observed_source_keys ≡ map (λ candidate. candidate.source_key) request.candidates)
      × (summary.upserted_days ≡ length request.candidates)
      × ((s : ℤ) (k : Text)
          → IsAfter fresh display request s k (usage_at s k tables.daily)
              (usage_at s k tables'.daily))

  summary_of_lem :
      (keys : List Text) (summary : DailyReconciliationSummary)
      → summary_of fresh display keys ≡ ok summary
      → (summary.observed_source_keys ≡ keys) × (summary.upserted_days ≡ length keys)
  unfolding summary_of
  summary_of_lem keys summary h = (ground arith, ground arith)

  length-keys :
      (candidates : List DailyUsageCandidate)
      → length (map (λ candidate. DailyUsageCandidate.source_key candidate) candidates)
        ≡ length candidates
  length-keys [] = refl
  length-keys (c ∷ cs) = omega (arith, length-keys cs)

  lifted :
      (r : Result DailyReconciliationSummary UsageStoreError) (tables : Tables)
      {x : DailyReconciliationSummary × Tables}
      → lift r tables ≡ ok x
      → (made : DailyReconciliationSummary) × (r ≡ ok made) × (made ≡ x.0) × (tables ≡ x.1)
  lifted (ok made) tables h = (made, refl, ground arith, ground arith)
  lifted (err e) tables h = cc

  in_transaction :
      (tables : Tables) (summary : DailyReconciliationSummary) (tables' : Tables)
      → IsNewImport fresh display request tables
      → reconcile_daily_in_transaction fresh display request tables ≡ ok (summary, tables')
      → IsReconciled tables (ok summary, tables')
  unfolding reconcile_daily_in_transaction
  in_transaction tables summary tables' new_import h =
      let (keys, tables1, e, h1) =
        continue-eq-ok
          (reconcile_candidates fresh display request.source_id request.import_run_id
            request.observed_at_ms request.candidates tables)
          _ h in
      let (_, tables2, e2, h2) =
        continue-eq-ok (evaluate_absences fresh display request tables1) _ h1 in
      let (made, summed, is_made, is_last) = lifted (summary_of fresh display keys) tables2 h2 in
      let (listed, observed, others) =
        reconcile_candidates_lem fresh display request.source_id request.import_run_id
          request.observed_at_ms request.candidates tables tables1 keys e in
      let (names, counted) = summary_of_lem keys made summed in
      (
        ap (λ (m : DailyReconciliationSummary). m.observed_source_keys) (sym is_made)
            ∙ names
            ∙ listed,
        ap (λ (m : DailyReconciliationSummary). m.upserted_days) (sym is_made)
            ∙ counted
            ∙ ap length listed
            ∙ length-keys request.candidates,
        λ s k.
            subst
              (λ t.
                IsAfter fresh display request s k (usage_at s k tables.daily)
                  (usage_at s k (Tables.daily t)))
              is_last
              (after fresh display request (same_ℤ request.source_id.value s) s k tables tables1
                tables2 refl new_import observed others
                (evaluate_absences_lem fresh display request tables1 tables2 e2)),
      )

  committed :
      (commits : Bool) (tables : Tables)
      (r : Result (DailyReconciliationSummary × Tables) UsageStoreError)
      → ((summary : DailyReconciliationSummary) (tables' : Tables)
          → r ≡ ok (summary, tables')
          → IsReconciled tables (ok summary, tables'))
      → IsReconciled tables (commit fresh display commits tables r)
  committed commits tables (err e) h = refl
  committed true tables (ok (summary, tables')) h = h summary tables' refl
  committed false tables (ok (summary, tables')) h = refl

  -- Whether SQLite begins and commits the transaction or not, a reconciliation for an import that
  -- no record has been seen by leaves all tables as they are, if it fails. If it succeeds, it
  -- reports the source keys of the candidates in order, and their number. Then the usage under
  -- each key of another source is as before. Under each key of the request's source with
  -- candidates it is that of the last of them, but for the time of the first sight of a record
  -- that was there. Under each other key of the source nothing changes, except that after a full
  -- import that rejected nothing an active record is missing, and a missing one removed.
  pub reconcile_daily-refines :
      (begins commits : Bool) (tables : Tables)
      → IsNewImport fresh display request tables
      → IsReconciled tables (reconcile_daily fresh display begins commits request tables)
  unfolding reconcile_daily
  reconcile_daily-refines true commits tables new_import =
      committed commits tables (reconcile_daily_in_transaction fresh display request tables)
        (λ summary tables' e. in_transaction tables summary tables' new_import e)
  reconcile_daily-refines false commits tables new_import = refl
