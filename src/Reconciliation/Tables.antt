-- ===== src/Reconciliation/Tables.antt =====
-- The tables of src-tauri/migrations/0001_initial.sql that the reconciliation of daily usage reads
-- and writes, and the statements on them. Foreign keys are on (connection.rs).
pub mod Statements
pub mod Lookup
use burnly.Prelude.{
  ℕ, zero, suc, ◌+◌, Bool, true, false, ◌&&◌, ◌||◌, not, Option, none, some, List, [], ◌∷◌, ◌++◌,
  map, all, any, Result, ok, err, leb, ◌==◌, is_empty, length, if◌then◌else◌,
}
use burnly.Prelude.Text.{Text, text, text_eq}
use burnly.Prelude.Int.{ℤ, pos, leb_ℤ, same_ℤ}
use burnly.Prelude.Sql.{is_filled, is_date_shaped}
use burnly.Domain.Cost.{is_ascii_uppercase}
use burnly.Reconciliation.{
  UsageStoreError, backend, TokenColumns, DailyCostColumns, ModelCostColumns,
}

-- The values that the CHECK clause of `record_state` allows.
pub data RecordState : Type 0 where
  active missing removed : RecordState

-- The columns of `daily_usage` but for its id and its key. `project_id` is always NULL.
pub record DailyUsage : Type 0 where
  pub identity_version : ℕ
  pub usage_date : Text
  pub aggregation_timezone : Text
  pub tokens : TokenColumns
  pub cost : DailyCostColumns
  pub data_quality : Text
  pub record_state : RecordState
  pub absence_count : ℕ
  pub first_seen_at_ms : ℤ
  pub last_seen_at_ms : ℤ
  pub removed_at_ms : Option ℤ
  pub latest_import_id : ℤ

-- A row of `daily_usage`.
pub record DailyRow : Type 0 where
  pub id : ℤ
  pub source_id : ℤ
  pub source_key : Text
  pub usage : DailyUsage

-- A row of `source_models`, less its two columns that are always NULL.
pub record ModelRow : Type 0 where
  pub id : ℤ
  pub source_id : ℤ
  pub raw_model_id : Text
  pub first_seen_at_ms : ℤ
  pub last_seen_at_ms : ℤ

-- A row of `daily_model_usage`, less its id, which nothing reads.
pub record DailyModelRow : Type 0 where
  pub daily_usage_id : ℤ
  pub source_id : ℤ
  pub model_id : ℤ
  pub tokens : TokenColumns
  pub cost : ModelCostColumns
  pub latest_import_id : ℤ

-- Of `import_runs` the id and the source of a row, which foreign keys refer to.
pub record Tables : Type 0 where
  pub sources : List ℤ
  pub imports : List (ℤ × ℤ)
  pub models : List ModelRow
  pub daily : List DailyRow
  pub daily_models : List DailyModelRow

-- The ids that SQLite chooses for new rows.
pub record FreshIds : Type 0 where
  pub of_model : List ModelRow → ℤ
  pub of_daily : List DailyRow → ℤ

-- The CHECK clause of a currency.
abbrev pub currency_checks : Option Text → Bool
currency_checks none = true
currency_checks (some value) = length value == 3 && all is_ascii_uppercase value

abbrev is_null : {A : Type 0} → Option A → Bool
is_null none = true
is_null (some _) = false

-- A valued status goes with an amount and a currency, and the other statuses with neither.
abbrev pub cost_checks : List Text → List Text → Text → Option ℕ → Option Text → Bool
cost_checks valued_statuses other_statuses status amount_micros currency =
    currency_checks currency
    && ((any (text_eq status) valued_statuses
          && not (is_null amount_micros)
          && not (is_null currency))
        || (any (text_eq status) other_statuses && is_null amount_micros && is_null currency))

-- The CHECK clause of the record state, the count of absences and the time of removal.
abbrev pub state_checks : RecordState → ℕ → Option ℤ → Bool
state_checks active absence_count removed_at_ms = absence_count == 0 && is_null removed_at_ms
state_checks missing absence_count removed_at_ms = absence_count == 1 && is_null removed_at_ms
state_checks removed absence_count removed_at_ms =
    leb 2 absence_count && not (is_null removed_at_ms)

abbrev removal_checks : ℤ → Option ℤ → Bool
removal_checks last_seen_at_ms none = true
removal_checks last_seen_at_ms (some at) = leb_ℤ last_seen_at_ms at

-- The CHECK clauses of `daily_usage` on what was collected. The columns of tokens and of the amount
-- are not negative.
unfoldable pub content_checks : Text → DailyUsage → Bool
content_checks source_key usage =
    is_filled source_key
    && leb 1 usage.identity_version
    && is_date_shaped usage.usage_date
    && is_filled usage.aggregation_timezone
    && cost_checks (text "available" ∷ text "estimated" ∷ [])
        (text "not_applicable" ∷ text "unavailable" ∷ []) usage.cost.status usage.cost.amount_micros
        usage.cost.currency
    && any (text_eq usage.cost.kind) (
        text "source_reported"
        ∷ text "collector_calculated"
        ∷ text "collector_mixed"
        ∷ text "burnly_calculated"
        ∷ text "unknown"
        ∷ [])
    && is_filled usage.data_quality

-- Those on the times and on the state of the record.
unfoldable pub life_checks : DailyUsage → Bool
life_checks usage =
    leb_ℤ (pos 0) usage.first_seen_at_ms
    && leb_ℤ usage.first_seen_at_ms usage.last_seen_at_ms
    && removal_checks usage.last_seen_at_ms usage.removed_at_ms
    && state_checks usage.record_state usage.absence_count usage.removed_at_ms

unfoldable pub daily_checks : DailyRow → Bool
unfolding content_checks life_checks
daily_checks row = content_checks row.source_key row.usage && life_checks row.usage

unfoldable pub model_checks : ModelRow → Bool
model_checks row =
    is_filled row.raw_model_id
    && leb_ℤ (pos 0) row.first_seen_at_ms
    && leb_ℤ row.first_seen_at_ms row.last_seen_at_ms

unfoldable pub daily_model_checks : DailyModelRow → Bool
daily_model_checks row =
    cost_checks (text "estimated" ∷ []) (text "unavailable" ∷ []) row.cost.status
      row.cost.amount_micros row.cost.currency

-- The foreign keys to `sources` and to `import_runs`.
abbrev pub refers_to_source : Tables → ℤ → Bool
refers_to_source tables source_id = any (same_ℤ source_id) tables.sources

abbrev pub refers_to_import : Tables → ℤ → ℤ → Bool
refers_to_import tables import_id source_id =
    any (λ run. same_ℤ import_id run.0 && same_ℤ source_id run.1) tables.imports

-- `WHERE source_id = ? AND source_key = ?`, and the same of `source_models`.
unfoldable pub is_daily : ℤ → Text → DailyRow → Bool
is_daily source_id source_key row =
    same_ℤ row.source_id source_id && text_eq row.source_key source_key

unfoldable pub is_model : ℤ → Text → ModelRow → Bool
is_model source_id raw_model_id row =
    same_ℤ row.source_id source_id && text_eq row.raw_model_id raw_model_id
