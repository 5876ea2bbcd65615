-- ===== src/Usage/Tests.antt =====
-- Runs of the tray summary on concrete data.
use mathlib.Core.List.{Perm}
use burnly.Prelude.{ℕ, ◌≡◌, refl, arith, none, some, List, [], ◌∷◌, map, false}
use burnly.Prelude.Text.{Text, text}
use burnly.Prelude.Int.{pos}
use burnly.Domain.Source.{SourceKey}
use burnly.Usage.TraySummary.{
  TraySummaryScope, TraySummaryStoreModelUsage, TraySummaryStoreResult, read_model, trend,
  decreased,
}
use burnly.Usage.TraySummary.Trend.{IsTrend, trend-IsTrend}
use burnly.Usage.TraySummary.Rows.{AreSorted, row_since, read_model-rows}

-- Half as many tokens as yesterday.
halved : trend 50 100 ≡ some (record { direction = decreased; basis_points = 5000 })
unfolding trend
halved = refl

trend-IsTrend_example : IsTrend 50 100 (trend 50 100)
trend-IsTrend_example = trend-IsTrend 50 100 (omega arith)

abbrev usage : Text → SourceKey → ℕ → TraySummaryStoreModelUsage
usage model_name source total_tokens = record {
  model_name = model_name;
  source = source;
  total_tokens = total_tokens;
}

abbrev stored : TraySummaryStoreResult
stored = record {
  today_total_tokens = 120;
  week_total_tokens = 320;
  month_total_tokens = 900;
  today_models =
      usage (text "b") SourceKey.codex 40
      ∷ usage (text "a") SourceKey.codex 40
      ∷ usage (text "c") SourceKey.pi 40
      ∷ [];
  yesterday_models =
      usage (text "a") SourceKey.codex 10
      ∷ usage (text "a") SourceKey.codex 80
      ∷ usage (text "a") SourceKey.pi 1
      ∷ [];
  has_partial_data = false;
  latest_refresh_status = none;
  last_successful_refresh_at_ms = none;
}

abbrev scope : TraySummaryScope
scope = record {
  today = 100;
  yesterday = 99;
  week_start = 98;
  week_end = 104;
  month_start = 90;
  month_end = 119;
  aggregation_timezone = text "UTC";
}

read_model-rows_example :
    (sorted : List TraySummaryStoreModelUsage) × Perm sorted stored.today_models
    × AreSorted (read_model scope stored (pos 0)).models
    × ((read_model scope stored (pos 0)).models ≡ map (row_since stored.yesterday_models) sorted)
read_model-rows_example = read_model-rows scope stored (pos 0)
