-- ===== src/Reconciliation/Daily/Keys.antt =====
-- What the loop and the absence step together make of the usage under each key.
use mathlib.Core.Path.{subst}
use burnly.Prelude.{
  ◌≡◌, ◌≢◌, refl, Bool, true, false, Option, none, some, List, [], ◌∷◌, ok, arith, if◌then◌else◌,
  inl, inr, Bool-cases, ap, sym, ◌∙◌, All,
}
use burnly.Prelude.Text.{Text}
use burnly.Prelude.Int.{ℤ, same_ℤ}
use burnly.Domain.Identity.{NaiveDate}
use burnly.Collection.Request.{CollectionScope, full, incremental}
use burnly.Collection.Report.{CollectionOutcome}
use burnly.Collection.Candidate.{DailyUsageCandidate}
use burnly.Refresh.Execution.Ports.{ReconciliationRequest}
use burnly.Reconciliation.{should_evaluate_absence}
use burnly.Reconciliation.Tables.{Tables, DailyUsage, DailyRow, FreshIds, is_daily}
use burnly.Reconciliation.Tables.Statements.{lift}
use burnly.Reconciliation.Tables.Lookup.{usage_at, map_option, upserted, same_ℤ-eq}
use burnly.Reconciliation.Daily.{evaluate_absences, advance_absences}
use burnly.Reconciliation.Daily.Rounds.{usage_of-stamps}
use burnly.Reconciliation.Daily.Loop.{last_with, IsObserved, same_ℤ_refl}
use burnly.Reconciliation.Daily.Absences.{
  absent, swept, swept_in, swept_other, swept_seen, advance_absences_lem,
}

-- What becomes of a record that is not among the candidates. Only a full import that rejected
-- nothing says that it is absent.
abbrev pub unobserved : CollectionScope → CollectionOutcome → ℤ → DailyUsage → DailyUsage
unobserved full CollectionOutcome.complete now_ms usage = absent now_ms usage
unobserved full CollectionOutcome.empty now_ms usage = absent now_ms usage
unobserved full CollectionOutcome.partial now_ms usage = usage
unobserved (incremental _) _ now_ms usage = usage

module _ (fresh : FreshIds) (display : NaiveDate → Text)
    (request : ReconciliationRequest DailyUsageCandidate) where
  abbrev IsAfterKey :
      (of_source : Bool)
      → (last : Option DailyUsageCandidate) → (old new : Option DailyUsage) → Type 0
  IsAfterKey false _ old new = new ≡ old
  IsAfterKey true none old new =
      new ≡ map_option (unobserved request.scope request.outcome request.observed_at_ms) old
  IsAfterKey true (some last) old new =
      IsObserved fresh display request.import_run_id request.observed_at_ms (some last) old new

  -- The usage under a key of another source stays. Under a key of the request's source it is that
  -- of the last candidate with the key, or what becomes of a record that is not observed.
  abbrev pub IsAfter : ℤ → Text → (old new : Option DailyUsage) → Type 0
  IsAfter s k old new =
      IsAfterKey (same_ℤ request.source_id.value s) (last_with k request.candidates) old new

  -- No record has been seen by the import yet.
  abbrev pub IsNewImport : Tables → Type 0
  IsNewImport tables =
      All (λ row. DailyUsage.latest_import_id (DailyRow.usage row) ≢ request.import_run_id.value)
        tables.daily

  usage_at-All :
      (P : DailyUsage → Type 0) (s : ℤ) (k : Text) (rows : List DailyRow) (u : DailyUsage)
      → All (λ row. P (DailyRow.usage row)) rows
      → usage_at s k rows ≡ some u
      → P u
  usage_at-All P s k [] u h e = absurd (ground arith)
  usage_at-All P s k (row ∷ rows) u h e = elim (Bool-cases (is_daily s k row)) [
    | inl here ↦ let found : some row.usage ≡ some u = rw here at e in subst P (ground arith) h.0
    | inr else' ↦ usage_at-All P s k rows u h.1 (rw else' at e)
  ]

  -- The absence step, done or left out.
  abbrev sweep_if : Bool → ℤ → Text → DailyUsage → DailyUsage
  sweep_if true s k u = swept request.source_id request.import_run_id request.observed_at_ms s k u
  sweep_if false s k u = u

  abbrev sweeping : CollectionScope → CollectionOutcome → ℤ → Text → DailyUsage → DailyUsage
  sweeping scope outcome = sweep_if (should_evaluate_absence scope outcome)

  map_option-id : (o : Option DailyUsage) → map_option (λ u. u) o ≡ o
  map_option-id none = refl
  map_option-id (some u) = refl

  evaluated :
      (b : Bool) (tables tables' : Tables)
      → (if b
            then advance_absences request.source_id request.import_run_id request.observed_at_ms
            else lift (ok tt))
          tables
        ≡ ok (tt, tables')
      → (s : ℤ) (k : Text)
      → usage_at s k tables'.daily ≡ map_option (sweep_if b s k) (usage_at s k tables.daily)
  evaluated true tables tables' h s k =
      advance_absences_lem request.source_id request.import_run_id request.observed_at_ms tables
        tables' h s k
  evaluated false tables tables' h s k =
      let same : tables' ≡ tables = ground arith in
      ap (λ (t : Tables). usage_at s k t.daily) same
      ∙ sym (map_option-id (usage_at s k tables.daily))

  pub evaluate_absences_lem :
      (tables tables' : Tables)
      → evaluate_absences fresh display request tables ≡ ok (tt, tables')
      → (s : ℤ) (k : Text)
      → usage_at s k tables'.daily
        ≡ map_option (sweeping request.scope request.outcome s k) (usage_at s k tables.daily)
  unfolding evaluate_absences
  evaluate_absences_lem tables tables' h s k =
      evaluated (should_evaluate_absence request.scope request.outcome) tables tables' h s k

  same_ℤ_swap : (a b : ℤ) → same_ℤ a b ≡ same_ℤ b a
  same_ℤ_swap a b = ground arith

  unseen :
      (scope : CollectionScope) (outcome : CollectionOutcome) (k : Text) (u : DailyUsage)
      → same_ℤ u.latest_import_id request.import_run_id.value ≡ false
      → sweeping scope outcome request.source_id.value k u
        ≡ unobserved scope outcome request.observed_at_ms u
  unfolding should_evaluate_absence
  unseen full CollectionOutcome.complete k u e =
      swept_in request.source_id request.import_run_id request.observed_at_ms
        request.source_id.value k u u.record_state refl
        (same_ℤ_refl fresh display request.source_id.value) e
  unseen full CollectionOutcome.empty k u e =
      swept_in request.source_id request.import_run_id request.observed_at_ms
        request.source_id.value k u u.record_state refl
        (same_ℤ_refl fresh display request.source_id.value) e
  unseen full CollectionOutcome.partial k u e = refl
  unseen (incremental _) outcome k u e = refl

  kept :
      (b : Bool) (s : ℤ) (k : Text) (u : DailyUsage)
      → swept request.source_id request.import_run_id request.observed_at_ms s k u ≡ u
      → sweep_if b s k u ≡ u
  kept true s k u e = e
  kept false s k u e = refl

  kept_option :
      (b : Bool) (s : ℤ) (k : Text) (o : Option DailyUsage)
      → ((u : DailyUsage)
          → o ≡ some u
          → swept request.source_id request.import_run_id request.observed_at_ms s k u ≡ u)
      → map_option (sweep_if b s k) o ≡ o
  kept_option b s k none h = refl
  kept_option b s k (some u) h = ap some (kept b s k u (h u refl))

  unseen_option :
      (scope : CollectionScope) (outcome : CollectionOutcome) (k : Text) (o : Option DailyUsage)
      → ((u : DailyUsage)
          → o ≡ some u
          → same_ℤ u.latest_import_id request.import_run_id.value ≡ false)
      → map_option (sweeping scope outcome request.source_id.value k) o
        ≡ map_option (unobserved scope outcome request.observed_at_ms) o
  unseen_option scope outcome k none h = refl
  unseen_option scope outcome k (some u) h = ap some (unseen scope outcome k u (h u refl))

  not-same_ℤ : (a b : ℤ) → a ≢ b → same_ℤ a b ≡ false
  not-same_ℤ a b h = ground (arith, same_ℤ-eq a b)

  stamped :
      (u : DailyUsage) (old mid : Option DailyUsage) (v : DailyUsage)
      → mid ≡ some v
      → mid ≡ some (upserted u old)
      → u.latest_import_id ≡ request.import_run_id.value
      → same_ℤ v.latest_import_id request.import_run_id.value ≡ true
  stamped u none mid v at m e = ground arith
  stamped u (some old) mid v at m e = ground arith

  -- What stands under a key of the request's source after the loop and after the absence step.
  after_key :
      (last : Option DailyUsageCandidate) (k : Text) (old mid new : Option DailyUsage)
      → ((u : DailyUsage)
          → old ≡ some u
          → same_ℤ u.latest_import_id request.import_run_id.value ≡ false)
      → IsObserved fresh display request.import_run_id request.observed_at_ms last old mid
      → new ≡ map_option (sweeping request.scope request.outcome request.source_id.value k) mid
      → IsAfterKey true last old new
  after_key none k old mid new fresh_import observed e =
      e
      ∙ ap (map_option (sweeping request.scope request.outcome request.source_id.value k)) observed
      ∙ unseen_option request.scope request.outcome k old fresh_import
  after_key (some last) k old mid new fresh_import (u, made, m) e = (
    u,
    made,
    e
        ∙ kept_option (should_evaluate_absence request.scope request.outcome)
            request.source_id.value k mid
            (λ v at.
              swept_seen request.source_id request.import_run_id request.observed_at_ms
                request.source_id.value k v
                (stamped u old mid v at m
                  (usage_of-stamps fresh display request.import_run_id request.observed_at_ms last u
                    made).1))
        ∙ m,
  )

  pub after :
      (b : Bool) (s : ℤ) (k : Text) (tables tables1 tables2 : Tables)
      → same_ℤ request.source_id.value s ≡ b
      → IsNewImport tables
      → ((k : Text)
          → IsObserved fresh display request.import_run_id request.observed_at_ms
              (last_with k request.candidates)
              (usage_at request.source_id.value k tables.daily)
              (usage_at request.source_id.value k tables1.daily))
      → ((s : ℤ) (k : Text)
          → same_ℤ request.source_id.value s ≡ false
          → usage_at s k tables1.daily ≡ usage_at s k tables.daily)
      → ((s : ℤ) (k : Text)
          → usage_at s k tables2.daily
            ≡ map_option (sweeping request.scope request.outcome s k) (usage_at s k tables1.daily))
      → IsAfterKey b
          (last_with k request.candidates)
          (usage_at s k tables.daily)
          (usage_at s k tables2.daily)
  after false s k tables tables1 tables2 e new_import observed others swept_all =
      swept_all s k
      ∙ kept_option (should_evaluate_absence request.scope request.outcome) s k _ (λ u _.
        swept_other request.source_id request.import_run_id request.observed_at_ms s k u
          (same_ℤ_swap s request.source_id.value ∙ e))
      ∙ others s k e
  after true s k tables tables1 tables2 e new_import observed others swept_all =
      let here = same_ℤ-eq request.source_id.value s e in
      subst
        (λ s'.
          IsAfterKey true (last_with k request.candidates) (usage_at s' k tables.daily)
            (usage_at s' k tables2.daily))
        here
        (after_key (last_with k request.candidates) k _ _ _
          (λ u at. not-same_ℤ _ _ (
            usage_at-All (λ v. DailyUsage.latest_import_id v ≢ request.import_run_id.value)
              request.source_id.value k tables.daily u new_import at))
          (observed k) (swept_all request.source_id.value k))
