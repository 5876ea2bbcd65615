-- ===== src/Reconciliation/Tables/Statements.antt =====
-- The statements on the tables, as transactions.
use burnly.Prelude.{
  Bool, ◌&&◌, ◌||◌, not, Option, none, some, List, [], ◌∷◌, ◌++◌, map, all, any, Result, ok, err,
  if◌then◌else◌,
}
use burnly.Prelude.Text.{Text}
use burnly.Prelude.Int.{ℤ, same_ℤ}
use burnly.Reconciliation.{UsageStoreError, backend}
use burnly.Reconciliation.Tables.{
  DailyUsage, DailyRow, ModelRow, DailyModelRow, Tables, FreshIds, daily_checks, model_checks,
  daily_model_checks, refers_to_source, refers_to_import, is_daily, is_model,
}

-- A transaction: what it returns with the tables that it has written, or its error.
abbrev pub Transaction : Type 0 → Type 0
Transaction A = Tables → Result (A × Tables) UsageStoreError

abbrev pub continue :
    {A B : Type 0}
    → Result (A × Tables) UsageStoreError
    → (A → Transaction B)
    → Result (B × Tables) UsageStoreError
continue (ok (a, tables)) f = f a tables
continue (err e) f = err e

infixl 5 ◌>>=◌ ◌>>◌
abbrev pub ◌>>=◌ : {A B : Type 0} → Transaction A → (A → Transaction B) → Transaction B
(m >>= f) tables = continue (m tables) f

abbrev pub ◌>>◌ : {A B : Type 0} → Transaction A → Transaction B → Transaction B
m >> n = m >>= λ _. n

-- `?` on a result that needs no table.
abbrev pub lift : {A : Type 0} → Result A UsageStoreError → Transaction A
lift (ok a) tables = ok (a, tables)
lift (err e) tables = err e

-- A new value in the rows that a condition picks.
abbrev pub change_if : (DailyRow → Bool) → (DailyUsage → DailyUsage) → DailyRow → DailyRow
change_if chosen change row = if chosen row then record row { usage = change row.usage } else row

-- UPDATE daily_usage SET … WHERE …
unfoldable pub update_daily : (DailyRow → Bool) → (DailyUsage → DailyUsage) → Transaction Unit
update_daily chosen change tables =
    if all (λ row. not (chosen row) || daily_checks (change_if chosen change row)) tables.daily
    then ok (tt, record tables { daily = map (change_if chosen change) tables.daily })
    else err backend

abbrev pub find_daily : ℤ → Text → List DailyRow → Option DailyRow
find_daily source_id source_key [] = none
find_daily source_id source_key (row ∷ rows) =
    if is_daily source_id source_key row then some row else find_daily source_id source_key rows

abbrev pub find_model : ℤ → Text → List ModelRow → Option ModelRow
find_model source_id raw_model_id [] = none
find_model source_id raw_model_id (row ∷ rows) =
    if is_model source_id raw_model_id row then some row else find_model source_id raw_model_id rows

-- `DO UPDATE SET` of the daily rows: all but the time of the first sight comes from the new row.
abbrev pub excluded : DailyUsage → DailyUsage → DailyUsage
excluded new old = record new { first_seen_at_ms = old.first_seen_at_ms }

-- What the INSERT does when there is no row with the key, and when there is one. `row` has the
-- id of a new row.
unfoldable pub insert_or_update : DailyRow → Option DailyRow → Transaction ℤ
unfolding update_daily is_daily
insert_or_update row none tables = ok (row.id, record tables { daily = tables.daily ++ row ∷ [] })
insert_or_update row (some old) tables =
    continue (update_daily (is_daily row.source_id row.source_key) (excluded row.usage) tables)
      (λ _. lift (ok old.id))

abbrev pub seen_at : ℤ → ModelRow → ModelRow
seen_at now_ms row = record row { last_seen_at_ms = now_ms }

-- `DO UPDATE SET` of the models.
abbrev pub touched : ℤ → Text → ℤ → ModelRow → ModelRow
touched source_id raw_model_id now_ms row =
    if is_model source_id raw_model_id row then seen_at now_ms row else row

unfoldable pub insert_or_touch : ModelRow → Option ModelRow → Transaction ℤ
insert_or_touch row none tables = ok (row.id, record tables { models = tables.models ++ row ∷ [] })
insert_or_touch row (some old) tables =
    if model_checks (seen_at row.last_seen_at_ms old)
    then ok (
      old.id,
      record tables {
        models = map (touched row.source_id row.raw_model_id row.last_seen_at_ms) tables.models;
      },
    )
    else err backend

module _ (fresh : FreshIds) where
  -- INSERT INTO daily_usage … ON CONFLICT(source_id, source_key) DO UPDATE SET … RETURNING id. The
  -- CHECK clauses are tested on the inserted row and on the updated one.
  unfoldable pub upsert_daily : ℤ → Text → DailyUsage → Transaction ℤ
  unfolding insert_or_update
  upsert_daily source_id source_key usage tables =
      let row : DailyRow = record {
        id = fresh.of_daily tables.daily;
        source_id = source_id;
        source_key = source_key;
        usage = usage;
      } in
      if daily_checks row
        && refers_to_source tables source_id
        && refers_to_import tables usage.latest_import_id source_id
      then insert_or_update row (find_daily source_id source_key tables.daily) tables
      else err backend

  -- INSERT INTO source_models … ON CONFLICT(source_id, raw_model_id) DO UPDATE SET … RETURNING id
  unfoldable pub upsert_model : ℤ → Text → ℤ → Transaction ℤ
  unfolding insert_or_touch is_model
  upsert_model source_id raw_model_id now_ms tables =
      let row : ModelRow = record {
        id = fresh.of_model tables.models;
        source_id = source_id;
        raw_model_id = raw_model_id;
        first_seen_at_ms = now_ms;
        last_seen_at_ms = now_ms;
      } in
      if model_checks row && refers_to_source tables source_id
      then insert_or_touch row (find_model source_id raw_model_id tables.models) tables
      else err backend

-- DELETE FROM daily_model_usage WHERE daily_usage_id = ?
abbrev pub without : ℤ → List DailyModelRow → List DailyModelRow
without daily_usage_id [] = []
without daily_usage_id (row ∷ rows) =
    let rest = without daily_usage_id rows in
    if same_ℤ row.daily_usage_id daily_usage_id then rest else row ∷ rest

unfoldable pub delete_daily_models : ℤ → Transaction Unit
delete_daily_models daily_usage_id tables =
    ok (tt, record tables { daily_models = without daily_usage_id tables.daily_models })

-- UNIQUE (daily_usage_id, model_id)
abbrev pub clashes : DailyModelRow → DailyModelRow → Bool
clashes row other =
    same_ℤ row.daily_usage_id other.daily_usage_id && same_ℤ row.model_id other.model_id

-- INSERT INTO daily_model_usage
unfoldable pub insert_daily_model : DailyModelRow → Transaction Unit
insert_daily_model row tables =
    if daily_model_checks row
      && not (any (clashes row) tables.daily_models)
      && any (λ daily. same_ℤ daily.id row.daily_usage_id && same_ℤ daily.source_id row.source_id)
          tables.daily
      && any (λ model. same_ℤ model.id row.model_id && same_ℤ model.source_id row.source_id)
          tables.models
      && refers_to_import tables row.latest_import_id row.source_id
    then ok (tt, record tables { daily_models = tables.daily_models ++ row ∷ [] })
    else err backend
