-- ===== src/Reconciliation/Daily/Rounds.antt =====
-- What one round of the loop over the candidates makes of the usage under each key.
use burnly.Prelude.{◌≡◌, false, ◌&&◌, some, List, [], ◌∷◌, ok, arith, ap, ◌∙◌}
use burnly.Prelude.Text.{Text, text_eq}
use burnly.Prelude.Int.{ℤ, same_ℤ}
use burnly.Domain.Identity.{NaiveDate}
use burnly.Collection.Candidate.{DailyUsageCandidate, ModelUsageCandidate}
use burnly.Refresh.Runs.{SourceId, ImportRunId}
use burnly.Reconciliation.{token_columns, model_cost_columns}
use burnly.Reconciliation.Tables.{Tables, DailyUsage, DailyModelRow, FreshIds}
use burnly.Reconciliation.Tables.Statements.{upsert_model, delete_daily_models, insert_daily_model}
use burnly.Reconciliation.Tables.Lookup.{
  usage_at, upserted, upsert_daily_self, upsert_daily-other, continue-eq-ok, lift-eq-ok,
}
use burnly.Reconciliation.Daily.{
  usage_of, upsert_daily_usage, insert_daily_model_usage, resolve_model, insert_models,
  replace_model_breakdowns, reconcile_candidate,
}

module _ (fresh : FreshIds) (display : NaiveDate → Text) where
  upsert_model-daily :
      (s : ℤ) (m : Text) (now : ℤ) (tables tables' : Tables) (id : ℤ)
      → upsert_model fresh s m now tables ≡ ok (id, tables')
      → tables'.daily ≡ tables.daily
  unfolding upsert_model
  upsert_model-daily s m now tables tables' id h = ground arith

  insert_daily_model-daily :
      (row : DailyModelRow) (tables tables' : Tables)
      → insert_daily_model row tables ≡ ok (tt, tables')
      → tables'.daily ≡ tables.daily
  unfolding insert_daily_model
  insert_daily_model-daily row tables tables' h = ground arith

  insert_usage-daily :
      (s : SourceId) (i : ImportRunId) (d m : ℤ) (model : ModelUsageCandidate)
      (tables tables' : Tables)
      → insert_daily_model_usage fresh display s i d m model tables ≡ ok (tt, tables')
      → tables'.daily ≡ tables.daily
  unfolding insert_daily_model_usage
  insert_usage-daily s i d m model tables tables' h =
      let (tokens, _, h1) = lift-eq-ok (token_columns model.tokens) tables _ h in
      let (cost, _, h2) = lift-eq-ok (model_cost_columns model.cost) tables _ h1 in
      insert_daily_model-daily _ tables tables' h2

  insert_models-daily :
      (s : SourceId) (i : ImportRunId) (now d : ℤ) (models : List ModelUsageCandidate)
      (tables tables' : Tables)
      → insert_models fresh display s i now d models tables ≡ ok (tt, tables')
      → tables'.daily ≡ tables.daily
  unfolding insert_models resolve_model
  insert_models-daily s i now d [] tables tables' h = ground arith
  insert_models-daily s i now d (model ∷ models) tables tables' h =
      let (id, tables1, e1, h1) =
        continue-eq-ok (resolve_model fresh display s now model tables) _ h in
      let (_, tables2, e2, h2) =
        continue-eq-ok (insert_daily_model_usage fresh display s i d id model tables1) _ h1 in
      insert_models-daily s i now d models tables2 tables' h2
      ∙ insert_usage-daily s i d id model tables1 tables2 e2
      ∙ upsert_model-daily s.value model.raw_model_id now tables tables1 id e1

  replace-daily :
      (s : SourceId) (i : ImportRunId) (now d : ℤ) (candidate : DailyUsageCandidate)
      (tables tables' : Tables)
      → replace_model_breakdowns fresh display s i now d candidate tables ≡ ok (tt, tables')
      → tables'.daily ≡ tables.daily
  unfolding replace_model_breakdowns delete_daily_models
  replace-daily s i now d candidate tables tables' h =
      insert_models-daily s i now d candidate.model_breakdowns _ tables' h

  -- A round of the loop writes the usage under the key of its candidate, and no other.
  pub reconcile_candidate_lem :
      (s : SourceId) (i : ImportRunId) (now : ℤ) (candidate : DailyUsageCandidate)
      (tables tables' : Tables)
      → reconcile_candidate fresh display s i now candidate tables ≡ ok (tt, tables')
      → (new : DailyUsage) × (usage_of fresh display i now candidate ≡ ok new)
        × (usage_at s.value candidate.source_key tables'.daily
            ≡ some (upserted new (usage_at s.value candidate.source_key tables.daily)))
        × ((s' : ℤ) (k : Text)
            → (same_ℤ s.value s' && text_eq candidate.source_key k) ≡ false
            → usage_at s' k tables'.daily ≡ usage_at s' k tables.daily)
  unfolding reconcile_candidate upsert_daily_usage
  reconcile_candidate_lem s i now candidate tables tables' h =
      let (id, tables1, e, h1) =
        continue-eq-ok (upsert_daily_usage fresh display s i now candidate tables) _ h in
      let (new, made, up) = lift-eq-ok (usage_of fresh display i now candidate) tables _ e in
      let kept = replace-daily s i now id candidate tables1 tables' h1 in
      (
        new,
        made,
        ap (usage_at s.value candidate.source_key) kept
            ∙ upsert_daily_self fresh s.value candidate.source_key new tables tables1 id up,
        λ s' k other.
            ap (usage_at s' k) kept
            ∙ upsert_daily-other fresh s.value candidate.source_key new tables tables1 id up s' k
                other,
      )

  pub usage_of-stamps :
      (i : ImportRunId) (now : ℤ) (candidate : DailyUsageCandidate) (new : DailyUsage)
      → usage_of fresh display i now candidate ≡ ok new
      → (new.first_seen_at_ms ≡ now) × (new.latest_import_id ≡ i.value)
  unfolding usage_of
  usage_of-stamps i now candidate new h = (ground arith, ground arith)
