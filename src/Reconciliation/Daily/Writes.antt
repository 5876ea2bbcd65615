-- ===== src/Reconciliation/Daily/Writes.antt =====
-- When the model breakdown of a day is written.
use burnly.Prelude.{
  ◌≡◌, refl, true, Option, none, some, List, [], ◌∷◌, ◌++◌, map, ok, arith, All, All-append, ◌∙◌,
  inl, inr, Bool-cases,
}
use burnly.Prelude.Text.{Text, text_eq, text_eq_iff}
use burnly.Prelude.Sql.{is_filled}
use burnly.Prelude.Int.{ℤ, pos, same_ℤ, leb_ℤ}
use burnly.Domain.Identity.{NaiveDate}
use burnly.Collection.Candidate.{ModelUsageCandidate}
use burnly.Refresh.Runs.{SourceId, ImportRunId}
use burnly.Reconciliation.Tables.{
  Tables, ModelRow, FreshIds, model_checks, is_model, refers_to_source, refers_to_import,
}
use burnly.Reconciliation.Tables.Statements.{find_model, upsert_model, touched, insert_or_touch}
use burnly.Reconciliation.Daily.{resolve_model}
use burnly.Reconciliation.Daily.Accepted.{TokensFit, CostFits}
use burnly.Reconciliation.Daily.Ready.{IsReady, and_true, leb_ℤ_refl}
use burnly.Reconciliation.Daily.Rows.{same_ℤ_self}
use burnly.Reconciliation.Daily.Models.{
  CanBeSeen, model_id, model_id-find, model_id-touched, model_id-append,
}
use burnly.Reconciliation.Daily.Names.{
  IsUnused, AreUnshared, unshared_append, unshared_touched, known-append,
}

-- The values of a model breakdown pass the CHECK clauses.
abbrev pub IsModelStorable : ModelUsageCandidate → Type 0
IsModelStorable model =
    (is_filled model.raw_model_id ≡ true) × TokensFit model.tokens × CostFits model.cost

text_eq_self : (t : Text) → text_eq t t ≡ true
text_eq_self t = ground (arith, text_eq_iff t t)

module _ (s : SourceId) (i : ImportRunId) (now : ℤ) where
  -- The request's source and import are there, and all rows can be updated at the time `now`.
  abbrev pub IsOpen : Tables → Type 0
  IsOpen tables =
      (refers_to_source tables s.value ≡ true)
      × (refers_to_import tables i.value s.value ≡ true)
      × All (IsReady now) tables.daily
      × All (CanBeSeen now) tables.models
      × AreUnshared tables.models

  found_can :
      (raw : Text) (rows : List ModelRow) (old : ModelRow)
      → find_model s.value raw rows ≡ some old
      → All (CanBeSeen now) rows
      → CanBeSeen now old
  found_can raw [] old f h = cc
  found_can raw (row ∷ rows) old f (c, h) = elim (Bool-cases (is_model s.value raw row)) [
    | inl e ↦
        let found : some row ≡ some old = rw e at f in
        let same : row ≡ old = ground arith in rw (← same) c
    | inr e ↦ found_can raw rows old (rw e at f) h
  ]

  touched_can :
      (raw : Text) (rows : List ModelRow)
      → All (CanBeSeen now) rows
      → All (CanBeSeen now) (map (touched s.value raw now) rows)
  touched_can raw [] h = tt
  touched_can raw (row ∷ rows) (c, h) = (
    elim (Bool-cases (is_model s.value raw row)) [ inl e ↦ rw e c | inr e ↦ rw e c ],
    touched_can raw rows h,
  )

  -- What the table of models becomes when a model is seen.
  abbrev pub IsResolved : Text → List ModelRow → ℤ → List ModelRow → Type 0
  IsResolved raw before id models =
      All (CanBeSeen now) models
      × AreUnshared models
      × (model_id s.value raw models ≡ some id)
      × ((k : Text) (n : ℤ)
          → model_id s.value k before ≡ some n
          → model_id s.value k models ≡ some n)

  IsResolved-new :
      (row : ModelRow) (models : List ModelRow)
      → find_model s.value row.raw_model_id models ≡ none
      → row.source_id ≡ s.value
      → CanBeSeen now row
      → IsUnused row.id models
      → All (CanBeSeen now) models
      → AreUnshared models
      → IsResolved row.raw_model_id models row.id (models ++ row ∷ [])
  unfolding is_model
  IsResolved-new row models f e c u can unshared =
      let unknown : model_id s.value row.raw_model_id models ≡ none =
        model_id-find s.value row.raw_model_id models none f in
      let here : is_model s.value row.raw_model_id row ≡ true =
        and_true {a = same_ℤ row.source_id s.value} (rw e (same_ℤ_self s.value))
          (text_eq_self row.raw_model_id) in
      (
        All-append (CanBeSeen now) models (row ∷ []) can (c, tt),
        unshared_append models row unshared u,
        model_id-append s.value row.raw_model_id models row ∙ rw unknown (rw here refl),
        λ k n h. known-append s.value k n models row h,
      )

  IsResolved-old :
      (raw : Text) (old : ModelRow) (models : List ModelRow)
      → find_model s.value raw models ≡ some old
      → All (CanBeSeen now) models
      → AreUnshared models
      → IsResolved raw models old.id (map (touched s.value raw now) models)
  IsResolved-old raw old models f can unshared = (
    touched_can raw models can,
    unshared_touched s.value raw now models unshared,
    model_id-touched s.value raw now s.value raw models
        ∙ model_id-find s.value raw models (some old) f,
    λ k n h. model_id-touched s.value raw now s.value k models ∙ h,
  )

  resolved :
      (row : ModelRow) (found : Option ModelRow) (tables : Tables)
      → find_model s.value row.raw_model_id tables.models ≡ found
      → row.source_id ≡ s.value
      → row.last_seen_at_ms ≡ now
      → model_checks row ≡ true
      → IsUnused row.id tables.models
      → IsOpen tables
      → (id : ℤ) × (models : List ModelRow) × (insert_or_touch row found tables
          ≡ ok (id, record tables { models = models }))
        × IsResolved row.raw_model_id tables.models id models
  unfolding insert_or_touch
  resolved row none tables f e t c u (_, _, _, can, unshared) = (
    row.id,
    tables.models ++ row ∷ [],
    refl,
    IsResolved-new row tables.models f e (rw (← t) c) u can unshared,
  )
  resolved row (some old) tables f e t c u (_, _, _, can, unshared) = (
    old.id,
    map (touched s.value row.raw_model_id now) tables.models,
    rw (t, e, found_can row.raw_model_id tables.models old f can) refl,
    IsResolved-old row.raw_model_id old tables.models f can unshared,
  )

  module _ (fresh : FreshIds) (display : NaiveDate → Text) where
    pub resolve_model_succeeds :
        (model : ModelUsageCandidate) (tables : Tables)
        → leb_ℤ (pos 0) now ≡ true
        → is_filled model.raw_model_id ≡ true
        → IsUnused (fresh.of_model tables.models) tables.models
        → IsOpen tables
        → (id : ℤ) × (models : List ModelRow) × (resolve_model fresh display s now model tables
            ≡ ok (id, record tables { models = models }))
          × IsResolved model.raw_model_id tables.models id models
    unfolding resolve_model upsert_model model_checks
    resolve_model_succeeds model tables h filled unused opened =
        let row : ModelRow = record {
          id = fresh.of_model tables.models;
          source_id = s.value;
          raw_model_id = model.raw_model_id;
          first_seen_at_ms = now;
          last_seen_at_ms = now;
        } in
        let checks : model_checks row ≡ true = and_true (and_true filled h) (leb_ℤ_refl now) in
        let (id, models, done, after) =
          resolved row (find_model s.value model.raw_model_id tables.models) tables refl refl refl
            checks unused opened in
        let start : resolve_model fresh display s now model tables
            ≡ insert_or_touch row (find_model s.value model.raw_model_id tables.models) tables =
          rw (filled, h, leb_ℤ_refl now, opened.0) refl in
        (id, models, start ∙ done, after)
