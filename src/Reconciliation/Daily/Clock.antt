-- ===== src/Reconciliation/Daily/Clock.antt =====
-- What a clock that was set back does to a reconciliation.
use burnly.Prelude.{
  ◌≡◌, ◌≢◌, refl, Bool, true, false, ◌&&◌, ◌||◌, not, none, some, List, [], ◌∷◌, all, Result, ok,
  err, arith, if◌then◌else◌, ap, ◌∙◌, inl, inr, Bool-cases,
}
use burnly.Prelude.Text.{Text}
use burnly.Prelude.Int.{ℤ, same_ℤ, ltb_ℤ}
use burnly.Domain.Identity.{NaiveDate}
use burnly.Collection.Request.{CollectionScope, full, incremental}
use burnly.Collection.Report.{CollectionOutcome}
use burnly.Collection.Candidate.{DailyUsageCandidate}
use burnly.Refresh.Execution.Ports.{ReconciliationRequest}
use burnly.Reconciliation.{
  backend, UsageStoreError, DailyReconciliationSummary, should_evaluate_absence,
}
use burnly.Reconciliation.Tables.{
  Tables, DailyUsage, DailyRow, FreshIds, missing, is_daily, daily_checks, life_checks,
}
use burnly.Reconciliation.Tables.Statements.{change_if, update_daily}
use burnly.Reconciliation.Tables.Lookup.{usage_at, continue-eq-ok, same_ℤ-eq, is_daily-eq}
use burnly.Reconciliation.Daily.{
  advance_absences, remove_at, is_absent, reconcile_candidates, evaluate_absences,
  reconcile_daily_in_transaction, reconcile_daily, commit,
}
use burnly.Reconciliation.Daily.Loop.{last_with, reconcile_candidates_lem, same_ℤ_refl}

-- The removal of a record that was seen last after now fails its CHECK clause.
removed_early :
    (row : DailyRow) (u : DailyUsage) (now : ℤ)
    → ltb_ℤ now u.last_seen_at_ms ≡ true
    → daily_checks (record row { usage = remove_at now u }) ≡ false
unfolding daily_checks life_checks
removed_early row u now h = ground arith

refused_head :
    (chosen : DailyRow → Bool) (change : DailyUsage → DailyUsage) (row : DailyRow)
    (rows : List DailyRow)
    → chosen row ≡ true
    → daily_checks (record row { usage = change row.usage }) ≡ false
    → all (λ r. not (chosen r) || daily_checks (change_if chosen change r)) (row ∷ rows) ≡ false
refused_head chosen change row rows h e = rw h (rw e refl)

refused_tail : (b c : Bool) → c ≡ false → (b && c) ≡ false
refused_tail true c e = e
refused_tail false c e = refl

-- An UPDATE fails if the value it gives to the usage under a key always fails the CHECK clauses.
refused_at :
    (chosen : DailyRow → Bool) (change : DailyUsage → DailyUsage) (s : ℤ) (k : Text)
    (u : DailyUsage) (rows : List DailyRow)
    → ((row : DailyRow) → row.source_id ≡ s → row.usage ≡ u → chosen row ≡ true)
    → ((row : DailyRow) → daily_checks (record row { usage = change u }) ≡ false)
    → usage_at s k rows ≡ some u
    → all (λ row. not (chosen row) || daily_checks (change_if chosen change row)) rows ≡ false
refused_at chosen change s k u [] picks fails e = cc
refused_at chosen change s k u (row ∷ rows) picks fails e = elim (Bool-cases (is_daily s k row)) [
  | inl here ↦
      let found : some row.usage ≡ some u = rw here at e in
      let same : row.usage ≡ u = ground arith in
      let pick = picks row (is_daily-eq s k row here).0 same in
      refused_head chosen change row rows pick
        (ap (λ v. daily_checks (record row { usage = change v })) same ∙ fails row)
  | inr else' ↦ refused_tail _ _ (refused_at chosen change s k u rows picks fails (rw else' at e))
]

refused_update :
    (b : Bool) (r : Result (Unit × Tables) UsageStoreError) {x : Unit × Tables}
    → b ≡ false
    → (if b then r else err backend) ≢ ok x
refused_update b r e h = ground arith

module _ (fresh : FreshIds) (display : NaiveDate → Text)
    (request : ReconciliationRequest DailyUsageCandidate) where
  -- A record of the source that is missing, and that another import has seen after now.
  abbrev pub IsAhead : DailyUsage → Type 0
  IsAhead u =
      (u.record_state ≡ missing)
      × (u.latest_import_id ≢ request.import_run_id.value)
      × (ltb_ℤ request.observed_at_ms u.last_seen_at_ms ≡ true)

  not-same_ℤ : (a b : ℤ) → a ≢ b → same_ℤ a b ≡ false
  not-same_ℤ a b h = ground (arith, same_ℤ-eq a b)

  picked :
      (u : DailyUsage) (row : DailyRow)
      → IsAhead u
      → row.source_id ≡ request.source_id.value
      → row.usage ≡ u
      → is_absent request.source_id request.import_run_id missing row ≡ true
  picked u row (state, import, _) source e =
      rw (source, e)
        (rw (same_ℤ_refl fresh display request.source_id.value)
          (rw (not-same_ℤ u.latest_import_id request.import_run_id.value import) (rw state refl)))

  advance-refused :
      (k : Text) (u : DailyUsage) (tables : Tables) {x : Unit × Tables}
      → IsAhead u
      → usage_at request.source_id.value k tables.daily ≡ some u
      → advance_absences request.source_id request.import_run_id request.observed_at_ms tables
        ≢ ok x
  unfolding advance_absences update_daily
  advance-refused k u tables ahead e h =
      let no =
        refused_at (is_absent request.source_id request.import_run_id missing)
          (remove_at request.observed_at_ms) request.source_id.value k u tables.daily
          (λ row source same. picked u row ahead source same)
          (λ row. removed_early row u request.observed_at_ms ahead.2) e in
      let (_, _, done, _) = continue-eq-ok _ _ h in refused_update _ _ no done

  evaluates :
      (scope : CollectionScope) (outcome : CollectionOutcome)
      → scope ≡ full
      → outcome ≢ CollectionOutcome.partial
      → should_evaluate_absence scope outcome ≡ true
  unfolding should_evaluate_absence
  evaluates full CollectionOutcome.complete e h = refl
  evaluates full CollectionOutcome.empty e h = refl
  evaluates full CollectionOutcome.partial e h = absurd (h refl)
  evaluates (incremental _) outcome e h = cc

  evaluate-refused :
      (k : Text) (u : DailyUsage) (tables : Tables) {x : Unit × Tables}
      → request.scope ≡ full
      → request.outcome ≢ CollectionOutcome.partial
      → IsAhead u
      → usage_at request.source_id.value k tables.daily ≡ some u
      → evaluate_absences fresh display request tables ≢ ok x
  unfolding evaluate_absences
  evaluate-refused k u tables scope outcome ahead e h =
      advance-refused k u tables ahead e
        (rw (evaluates request.scope request.outcome scope outcome) at h)

  transaction-refused :
      (tables : Tables) (k : Text) (u : DailyUsage) (x : DailyReconciliationSummary × Tables)
      → request.scope ≡ full
      → request.outcome ≢ CollectionOutcome.partial
      → last_with k request.candidates ≡ none
      → usage_at request.source_id.value k tables.daily ≡ some u
      → IsAhead u
      → reconcile_daily_in_transaction fresh display request tables ≢ ok x
  unfolding reconcile_daily_in_transaction
  transaction-refused tables k u x scope outcome absent e ahead h =
      let (keys, tables1, ran, h1) =
        continue-eq-ok
          (reconcile_candidates fresh display request.source_id request.import_run_id
            request.observed_at_ms request.candidates tables)
          _ h in
      let (_, tables2, evaluated, _) =
        continue-eq-ok (evaluate_absences fresh display request tables1) _ h1 in
      let (_, observed, _) =
        reconcile_candidates_lem fresh display request.source_id request.import_run_id
          request.observed_at_ms request.candidates tables tables1 keys ran in
      let kept : usage_at request.source_id.value k tables1.daily
          ≡ usage_at request.source_id.value k tables.daily =
        rw absent at (observed k) in
      evaluate-refused k u tables1 scope outcome ahead (kept ∙ e) evaluated

  rolled_back :
      (commits : Bool) (tables : Tables)
      (r : Result (DailyReconciliationSummary × Tables) UsageStoreError)
      → ((x : DailyReconciliationSummary × Tables) → r ≢ ok x)
      → (e : UsageStoreError) × (commit fresh display commits tables r ≡ (err e, tables))
  rolled_back commits tables (err e) h = (e, refl)
  rolled_back commits tables (ok x) h = absurd (h x refl)

  -- If the clock was set back, so that a missing record of the source was last seen after now, a
  -- reconciliation of a full import that rejected nothing and does not have that record fails,
  -- and leaves all tables as they are.
  pub reconcile_daily-clock_back :
      (begins commits : Bool) (tables : Tables) (k : Text) (u : DailyUsage)
      → request.scope ≡ full
      → request.outcome ≢ CollectionOutcome.partial
      → last_with k request.candidates ≡ none
      → usage_at request.source_id.value k tables.daily ≡ some u
      → IsAhead u
      → (e : UsageStoreError) × (reconcile_daily fresh display begins commits request tables
          ≡ (err e, tables))
  unfolding reconcile_daily
  reconcile_daily-clock_back false commits tables k u scope outcome absent e ahead = (backend, refl)
  reconcile_daily-clock_back true commits tables k u scope outcome absent e ahead =
      rolled_back commits tables (reconcile_daily_in_transaction fresh display request tables)
        (λ x. transaction-refused tables k u x scope outcome absent e ahead)
