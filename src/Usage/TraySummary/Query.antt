-- ===== src/Usage/TraySummary/Query.antt =====
-- The dates of the tray summary and its query:
-- src-tauri/src/application/usage/tray_summary.rs (`TraySummaryQuery::get`, `scope_for_instant`,
-- `scope_for_date`), over chrono's calendar and the store, which are parameters.
pub mod Windows
mod Tests
use burnly.Prelude.{
  ℕ, suc, zero, ◌+◌, Option, some, none, Result, ok, err, ◌>>=◌, ok_or, map_err, ◌==◌,
  if◌then◌else◌, Bool, true, false,
}
use burnly.Prelude.Text.{Text, is_blank}
use burnly.Prelude.Int.{ℤ, pos, negsuc}
use burnly.Domain.Identity.{NaiveDate}
use burnly.Usage.TraySummary.{
  TraySummaryScope, TraySummaryStoreResult, TraySummaryStoreError, TraySummaryReadModel,
  TraySummaryQueryError, empty_aggregation_timezone, invalid_aggregation_timezone,
  invalid_timestamp, storage, read_model,
}

-- What the query uses of chrono and chrono-tz. A `Tz` is its IANA name, a `DateTime<Utc>` its
-- milliseconds since the epoch.
pub record Calendar : Type 0 where
  pub timezone : Text → Option Text
  pub from_timestamp_millis : ℤ → Option ℤ
  pub date_in : ℤ → Text → NaiveDate
  pub checked_sub_days : NaiveDate → ℕ → Option NaiveDate
  pub checked_add_days : NaiveDate → ℕ → Option NaiveDate
  pub num_days_from_monday : NaiveDate → ℕ
  pub year : NaiveDate → ℤ
  pub month : NaiveDate → ℕ
  pub from_ymd_opt : ℤ → ℕ → ℕ → Option NaiveDate

-- `today.year() + 1`
abbrev pub next_year : ℤ → ℤ
next_year (pos n) = pos (suc n)
next_year (negsuc zero) = pos 0
next_year (negsuc (suc n)) = negsuc n

module _ (calendar : Calendar) where
  unfoldable pub first_of_next_month : NaiveDate → Option NaiveDate
  first_of_next_month today =
      if calendar.month today == 12
      then calendar.from_ymd_opt (next_year (calendar.year today)) 1 1
      else calendar.from_ymd_opt (calendar.year today) (calendar.month today + 1) 1

  unfoldable pub scope_for_date : NaiveDate → Text → Result TraySummaryScope TraySummaryQueryError
  unfolding first_of_next_month
  scope_for_date today aggregation_timezone = do
    yesterday ← ok_or (calendar.checked_sub_days today 1) invalid_timestamp
    week_start ←
        ok_or (calendar.checked_sub_days today (calendar.num_days_from_monday today))
          invalid_timestamp
    week_end ← ok_or (calendar.checked_add_days week_start 6) invalid_timestamp
    month_start ←
        ok_or (calendar.from_ymd_opt (calendar.year today) (calendar.month today) 1)
          invalid_timestamp
    next_month ← ok_or (first_of_next_month today) invalid_timestamp
    month_end ← ok_or (calendar.checked_sub_days next_month 1) invalid_timestamp
    ok (record {
      today = today;
      yesterday = yesterday;
      week_start = week_start;
      week_end = week_end;
      month_start = month_start;
      month_end = month_end;
      aggregation_timezone = aggregation_timezone;
    })

  unfoldable pub scope_for_instant : ℤ → Text → Result TraySummaryScope TraySummaryQueryError
  unfolding scope_for_date
  scope_for_instant now_epoch_ms aggregation_timezone =
      if is_blank aggregation_timezone then err empty_aggregation_timezone else (do
        timezone ← ok_or (calendar.timezone aggregation_timezone) invalid_aggregation_timezone
        instant ← ok_or (calendar.from_timestamp_millis now_epoch_ms) invalid_timestamp
        scope_for_date (calendar.date_in instant timezone) aggregation_timezone)

  -- `asked` and `answered` are the two readings of the clock.
  unfoldable pub get :
      (TraySummaryScope → Result TraySummaryStoreResult TraySummaryStoreError)
      → (asked answered : ℤ) → Text
      → Result TraySummaryReadModel TraySummaryQueryError
  unfolding scope_for_instant
  get read_tray_summary asked answered reporting_timezone = do
    scope ← scope_for_instant asked reporting_timezone
    result ← map_err storage (read_tray_summary scope)
    ok (read_model scope result answered)
