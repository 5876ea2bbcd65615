-- ===== src/Usage/TraySummary.antt =====
-- src-tauri/src/application/usage/tray_summary.rs.
pub mod Trend
pub mod Rows
pub mod Query
use Prim.Native.Nat.{compare, Ordering}
use burnly.Prelude.{
  ℕ, ◌+◌, ◌-◌, ◌*◌, ◌/◌, Bool, true, false, ◌&&◌, Option, none, some, List, [], ◌∷◌, map, Result,
  ok, err, ◌>>=◌, ok_or, map_err, ◌==◌, is_empty, min, u32_max, saturating_mul, if◌then◌else◌,
}
use burnly.Prelude.Text.{Text, text, text_eq, text_compare, is_blank}
use burnly.Prelude.TextOrder.{text_le}
use burnly.Prelude.Sort.{sort_by}
use burnly.Prelude.Int.{ℤ}
use burnly.Domain.Source.{SourceKey, same_source}
use burnly.Domain.Identity.{NaiveDate}
use burnly.Collection.Request.{Instant}

pub data PersistedRefreshStatus : Type 0 where
  cancelled succeeded partial failed : PersistedRefreshStatus

pub data OverviewDataStatus : Type 0 where
  current stale empty : OverviewDataStatus

pub data TraySummaryDataQuality : Type 0 where
  complete partial : TraySummaryDataQuality

pub record TraySummaryScope : Type 0 where
  pub today : NaiveDate
  pub yesterday : NaiveDate
  pub week_start : NaiveDate
  pub week_end : NaiveDate
  pub month_start : NaiveDate
  pub month_end : NaiveDate
  pub aggregation_timezone : Text

pub record TraySummaryPeriodMetric : Type 0 where
  pub start_date : NaiveDate
  pub end_date : NaiveDate
  pub total_tokens : ℕ

pub data TraySummaryTrendDirection : Type 0 where
  increased decreased flat : TraySummaryTrendDirection

pub record TraySummaryTrend : Type 0 where
  pub direction : TraySummaryTrendDirection
  pub basis_points : ℕ

pub record TraySummaryModelRow : Type 0 where
  pub model_name : Text
  pub agent_label : Text
  pub total_tokens : ℕ
  pub trend : Option TraySummaryTrend

pub record TraySummaryReadModel : Type 0 where
  pub today : TraySummaryPeriodMetric
  pub week : TraySummaryPeriodMetric
  pub month : TraySummaryPeriodMetric
  pub models : List TraySummaryModelRow
  pub as_of_ms : ℤ
  pub last_successful_refresh_at_ms : Option ℤ
  pub data_status : OverviewDataStatus
  pub data_quality : TraySummaryDataQuality
  pub latest_refresh_status : Option PersistedRefreshStatus

pub record TraySummaryStoreModelUsage : Type 0 where
  pub model_name : Text
  pub source : SourceKey
  pub total_tokens : ℕ

pub record TraySummaryStoreResult : Type 0 where
  pub today_total_tokens : ℕ
  pub week_total_tokens : ℕ
  pub month_total_tokens : ℕ
  pub today_models : List TraySummaryStoreModelUsage
  pub yesterday_models : List TraySummaryStoreModelUsage
  pub has_partial_data : Bool
  pub latest_refresh_status : Option PersistedRefreshStatus
  pub last_successful_refresh_at_ms : Option ℤ

pub data TraySummaryStoreError : Type 0 where
  value_out_of_range backend : TraySummaryStoreError

pub data TraySummaryQueryError : Type 0 where
  empty_aggregation_timezone invalid_aggregation_timezone invalid_timestamp : TraySummaryQueryError
  storage : TraySummaryStoreError → TraySummaryQueryError

-- The arms of `today.cmp(&yesterday)`.
abbrev pub direction_of : Ordering → TraySummaryTrendDirection
direction_of Ordering.gt = increased
direction_of Ordering.lt = decreased
direction_of Ordering.eq = flat

-- `today.abs_diff(yesterday)`
abbrev pub abs_diff : ℕ → ℕ → ℕ
abs_diff a b = (a - b) + (b - a)

unfoldable pub trend : ℕ → ℕ → Option TraySummaryTrend
unfolding saturating_mul
trend today yesterday =
    if yesterday == 0
    then (if today == 0 then some (record { direction = flat; basis_points = 0 }) else none)
    else some (record {
      direction = direction_of (compare today yesterday);
      basis_points = min (saturating_mul (abs_diff today yesterday) 10000 / yesterday) u32_max;
    })

abbrev pub source_label : SourceKey → Text
source_label SourceKey.claude_code = text "Claude Code"
source_label SourceKey.codex = text "Codex"
source_label SourceKey.open_code = text "OpenCode"
source_label SourceKey.pi = text "Pi"
source_label SourceKey.cline = text "Cline"
source_label SourceKey.z_code = text "ZCode"
source_label SourceKey.antigravity = text "Antigravity"
source_label SourceKey.grok_build = text "Grok Build"
source_label SourceKey.command_code = text "Command Code"
source_label SourceKey.deep_seek_harness = text "DeepSeek Harness"
source_label SourceKey.zed = text "Zed"

-- The nested `HashMap` of yesterday's models: its entries, the last one that was inserted first.
abbrev pub UsageMap : Type 0
UsageMap = List TraySummaryStoreModelUsage

-- The fold of `read_model`.
unfoldable pub by_model : UsageMap → List TraySummaryStoreModelUsage → UsageMap
by_model entries [] = entries
by_model entries (model ∷ models) = by_model (model ∷ entries) models

-- `yesterday_models.get(name).and_then(|by_source| by_source.get(source))`
unfoldable pub tokens_of : Text → SourceKey → UsageMap → Option ℕ
tokens_of name source [] = none
tokens_of name source (entry ∷ entries) =
    let rest = tokens_of name source entries in
    if text_eq entry.model_name name && same_source entry.source source
    then some entry.total_tokens
    else rest

abbrev pub trend_since : ℕ → Option ℕ → Option TraySummaryTrend
trend_since today none = none
trend_since today (some yesterday) = trend today yesterday

unfoldable pub model_row : UsageMap → TraySummaryStoreModelUsage → TraySummaryModelRow
model_row yesterday_models model = record {
  model_name = model.model_name;
  agent_label = source_label model.source;
  total_tokens = model.total_tokens;
  trend = trend_since model.total_tokens (tokens_of model.model_name model.source yesterday_models);
}

-- The comparison of `sort_by`: not after, by falling tokens, then by name, then by label.
abbrev pub usage_le : TraySummaryStoreModelUsage → TraySummaryStoreModelUsage → Bool
usage_le left right = elim (compare right.total_tokens left.total_tokens) [
  | Ordering.lt ↦ true
  | Ordering.gt ↦ false
  | Ordering.eq ↦ elim (text_compare left.model_name right.model_name) [
    | Ordering.lt ↦ true
    | Ordering.gt ↦ false
    | Ordering.eq ↦ text_le (source_label left.source) (source_label right.source)
  ]
]

unfoldable pub model_rows : List TraySummaryStoreModelUsage → UsageMap → List TraySummaryModelRow
unfolding sort_by model_row
model_rows today_models yesterday_models =
    map (model_row yesterday_models) (sort_by usage_le today_models)

unfoldable pub data_status : ℕ → List TraySummaryModelRow → OverviewDataStatus
data_status today_total_tokens models =
    if today_total_tokens == 0 && is_empty models then empty else current

unfoldable pub data_quality : Bool → TraySummaryDataQuality
data_quality has_partial_data = if has_partial_data then partial else complete

unfoldable pub read_model : TraySummaryScope → TraySummaryStoreResult → ℤ → TraySummaryReadModel
unfolding by_model model_rows data_status data_quality
read_model scope result as_of_ms =
    let models = model_rows result.today_models (by_model [] result.yesterday_models) in
    record {
      today = record {
        start_date = scope.today;
        end_date = scope.today;
        total_tokens = result.today_total_tokens;
      };
      week = record {
        start_date = scope.week_start;
        end_date = scope.week_end;
        total_tokens = result.week_total_tokens;
      };
      month = record {
        start_date = scope.month_start;
        end_date = scope.month_end;
        total_tokens = result.month_total_tokens;
      };
      models = models;
      as_of_ms = as_of_ms;
      last_successful_refresh_at_ms = result.last_successful_refresh_at_ms;
      data_status = data_status result.today_total_tokens models;
      data_quality = data_quality result.has_partial_data;
      latest_refresh_status = result.latest_refresh_status;
    }
