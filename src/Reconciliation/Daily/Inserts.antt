-- ===== src/Reconciliation/Daily/Inserts.antt =====
-- When all model breakdowns of a day are written.
use burnly.Prelude.{
  ◌≡◌, refl, true, false, some, List, [], ◌∷◌, ◌++◌, any, ok, arith, All, All-append, ap, sym, ◌∙◌,
  inl, inr, Bool-cases,
}
use burnly.Prelude.Text.{Text, text_eq, text_eq_iff}
use burnly.Prelude.Int.{ℤ, pos, same_ℤ, leb_ℤ}
use burnly.Domain.Identity.{NaiveDate}
use burnly.Collection.Candidate.{ModelUsageCandidate}
use burnly.Refresh.Runs.{SourceId, ImportRunId}
use burnly.Reconciliation.Tables.{
  Tables, ModelRow, DailyModelRow, FreshIds, daily_model_checks, refers_to_import,
}
use burnly.Reconciliation.Tables.Statements.{without, clashes, insert_daily_model}
use burnly.Reconciliation.Tables.Lookup.{same_ℤ-eq}
use burnly.Reconciliation.Daily.{insert_daily_model_usage, insert_models}
use burnly.Reconciliation.Daily.Accepted.{token_columns-fits, model_cost-fits}
use burnly.Reconciliation.Daily.Rows.{refers_to_daily}
use burnly.Reconciliation.Daily.Models.{refers_to_model, model_id, model_id-refers}
use burnly.Reconciliation.Daily.Names.{IsUnused, AreUnshared, model_id_inj}
use burnly.Reconciliation.Daily.Writes.{IsModelStorable, IsOpen, resolve_model_succeeds}

-- No two breakdowns are of one model.
abbrev pub AreDistinct : List ModelUsageCandidate → Type 0
AreDistinct [] = Unit
AreDistinct (model ∷ models) =
    All (λ other. text_eq model.raw_model_id (ModelUsageCandidate.raw_model_id other) ≡ false)
      models
    × AreDistinct models

module _ (s : SourceId) where
  -- A row of the day is of a model that is known by another name than those to come.
  abbrev pub IsNamed : ℤ → List ModelRow → List ModelUsageCandidate → DailyModelRow → Type 0
  IsNamed d known models row =
      same_ℤ row.daily_usage_id d ≡ true
      → (k : Text) × (model_id s.value k known ≡ some row.model_id)
        × All (λ m. text_eq k (ModelUsageCandidate.raw_model_id m) ≡ false) models

  no_clash :
      (row : DailyModelRow) (known : List ModelRow) (model : ModelUsageCandidate)
      (models : List ModelUsageCandidate) (rows : List DailyModelRow)
      → AreUnshared known
      → model_id s.value model.raw_model_id known ≡ some row.model_id
      → All (IsNamed row.daily_usage_id known (model ∷ models)) rows
      → any (clashes row) rows ≡ false
  no_clash row known model models [] u h n = refl
  no_clash row known model models (other ∷ rows) u h (n, ns) =
      let rest = no_clash row known model models rows u h ns in
      elim (Bool-cases (same_ℤ row.daily_usage_id other.daily_usage_id)) [
        | inl e ↦
            let (name, known_as, (different, _)) = n (ground arith) in
            elim (Bool-cases (same_ℤ row.model_id other.model_id)) [
              | inl f ↦
                  let ids : row.model_id ≡ other.model_id =
                    ground (arith, same_ℤ-eq row.model_id other.model_id) in
                  let names : name ≡ model.raw_model_id =
                    model_id_inj s.value name model.raw_model_id other.model_id known u known_as
                      (rw (← ids) h) in
                  let same : text_eq name model.raw_model_id ≡ true =
                    ground (arith, text_eq_iff name model.raw_model_id) in
                  let apart : text_eq name model.raw_model_id ≡ false = different in cc
              | inr f ↦ rw e (rw f rest)
            ]
        | inr e ↦ rw e rest
      ]

  -- What stays named when a model is resolved and leaves the names to come.
  still-IsNamed :
      (d : ℤ) (before after : List ModelRow) (model : ModelUsageCandidate)
      (models : List ModelUsageCandidate) (rows : List DailyModelRow)
      → ((k : Text) (n : ℤ)
          → model_id s.value k before ≡ some n
          → model_id s.value k after ≡ some n)
      → All (IsNamed d before (model ∷ models)) rows
      → All (IsNamed d after (model ∷ models)) rows × All (IsNamed d after models) rows
  still-IsNamed d before after model models [] keeps n = (tt, tt)
  still-IsNamed d before after model models (row ∷ rows) keeps (n, ns) =
      let (a, b) = still-IsNamed d before after model models rows keeps ns in
      (
        (λ e. let (k, known, apart) = n e in (k, keeps k row.model_id known, apart), a),
        (λ e. let (k, known, apart) = n e in (k, keeps k row.model_id known, apart.1), b),
      )

  module _ (i : ImportRunId) (fresh : FreshIds) (display : NaiveDate → Text) where
    inserted :
        (d id : ℤ) (model : ModelUsageCandidate) (tables : Tables)
        → IsModelStorable model
        → ((row : DailyModelRow)
            → row.daily_usage_id ≡ d
            → row.model_id ≡ id
            → any (clashes row) tables.daily_models ≡ false)
        → refers_to_daily d s.value tables.daily ≡ true
        → refers_to_model id s.value tables.models ≡ true
        → refers_to_import tables i.value s.value ≡ true
        → (row : DailyModelRow) × (insert_daily_model_usage fresh display s i d id model tables
            ≡ ok (tt, record tables { daily_models = tables.daily_models ++ row ∷ [] }))
          × (row.daily_usage_id ≡ d)
          × (row.model_id ≡ id)
    unfolding insert_daily_model_usage insert_daily_model daily_model_checks
    inserted d id model tables (_, tokens, cost) free day of_model import =
        let (columns, made) = token_columns-fits model.tokens tokens in
        let (costs, priced, valued) = model_cost-fits model.cost cost in
        let row : DailyModelRow = record {
          daily_usage_id = d;
          source_id = s.value;
          model_id = id;
          tokens = columns;
          cost = costs;
          latest_import_id = i.value;
        } in
        (row, rw (made, priced, valued, free row refl refl, day, of_model, import) refl, refl, refl)

    -- The loop over the breakdowns succeeds.
    pub insert_models_succeeds :
        (now d : ℤ) (models : List ModelUsageCandidate) (tables : Tables)
        → leb_ℤ (pos 0) now ≡ true
        → ((rows : List ModelRow) → IsUnused (fresh.of_model rows) rows)
        → All IsModelStorable models
        → AreDistinct models
        → refers_to_daily d s.value tables.daily ≡ true
        → All (IsNamed d tables.models models) tables.daily_models
        → IsOpen s i now tables
        → (tables' : Tables) × (insert_models fresh display s i now d models tables
            ≡ ok (tt, tables'))
          × IsOpen s i now tables'
    unfolding insert_models
    insert_models_succeeds now d [] tables h unused storable distinct day named opened =
        (tables, refl, opened)
    insert_models_succeeds now d (model ∷ models) tables h unused (st, storable) (apart, distinct)
          day named (source, import, ready, seen, ids) =
        let (id, known, done, (can, unshared, is_known, keeps)) =
          resolve_model_succeeds s i now fresh display model tables h st.0 (unused tables.models)
            (source, import, ready, seen, ids) in
        let (here, rest) =
          still-IsNamed d tables.models known model models tables.daily_models keeps named in
        let (row, done', is_day, is_id) =
          inserted d id model (record tables { models = known }) st
            (λ row e f.
              no_clash row known model models tables.daily_models unshared
                (is_known ∙ ap some (sym f)) (rw e here))
            day (model_id-refers s.value model.raw_model_id known id is_known) import in
        let (tables', done'', opened') =
          insert_models_succeeds now d models
            (record tables { models = known; daily_models = tables.daily_models ++ row ∷ [] }) h
            unused storable distinct day
            (All-append (IsNamed d known models) tables.daily_models (row ∷ []) rest
              ((λ _. (model.raw_model_id, is_known ∙ ap some (sym is_id), apart)), tt))
            (source, import, ready, can, unshared) in
        (tables', rw done (rw done' done''), opened')

  -- What is left when the rows of a day are deleted is of other days.
  pub without-IsNamed :
      (d : ℤ) (known : List ModelRow) (models : List ModelUsageCandidate)
      (rows : List DailyModelRow)
      → All (IsNamed d known models) (without d rows)
  without-IsNamed d known models [] = tt
  without-IsNamed d known models (row ∷ rows) = elim (Bool-cases (same_ℤ row.daily_usage_id d)) [
    | inl e ↦ rw e (without-IsNamed d known models rows)
    | inr e ↦ rw e ((λ t. cc), without-IsNamed d known models rows)
  ]
