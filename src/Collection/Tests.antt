-- ===== src/Collection/Tests.antt =====
-- Runs of the collection types on concrete data.
use burnly.Prelude.{◌≡◌, refl, none, [], ok, inl}
use burnly.Prelude.Text.{text}
use burnly.Domain.Source.{SourceKey}
use burnly.Collection.Request.{full, CollectionProjection}
use burnly.Collection.Report.{
  CollectionMetadata, ProcessSummary, CollectionResult, CollectionOutcome, daily_result, IsSound,
  results-IsSound,
}

abbrev metadata : CollectionMetadata
metadata = record {
  collection_id = record { value = text "c1" };
  collector = record { value = text "ccusage" };
  collector_version = text "1.0";
  source = SourceKey.codex;
  effective_scope = full;
  profile_version = 1;
  started_at = 5;
  finished_at = 6;
}

abbrev summary : ProcessSummary
summary = record { runtime_ms = 1; stdout_bytes = 0; stderr_bytes = 0; exit_code = none }

abbrev nothing_found : CollectionResult
nothing_found = record {
  metadata = metadata;
  projection = CollectionProjection.daily;
  outcome = CollectionOutcome.empty;
  daily_candidates = [];
  session_candidates = [];
  rejections = [];
  warnings = [];
  process_summary = summary;
}

daily_nothing : daily_result metadata [] [] [] summary ≡ ok nothing_found
unfolding daily_result
daily_nothing = refl

results-IsSound_example : IsSound nothing_found
results-IsSound_example =
    results-IsSound metadata [] [] [] [] summary nothing_found (inl daily_nothing)
