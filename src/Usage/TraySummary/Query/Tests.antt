-- ===== src/Usage/TraySummary/Query/Tests.antt =====
-- Runs of the query of the tray summary in a calendar whose months all have 31 days.
use burnly.Prelude.{
  ℕ, ◌+◌, ◌-◌, ◌*◌, ◌/◌, ◌%◌, ◌≤◌, ◌<◌, ◌≡◌, refl, inl, inr, Option, none, some, ok, leb, ◌&&◌,
  arith, if◌then◌else◌,
}
use burnly.Prelude.Text.{text}
use burnly.Prelude.Int.{ℤ, pos, negsuc, pos_part, neg_part}
use burnly.Domain.Identity.{NaiveDate}
use burnly.Usage.TraySummary.{TraySummaryScope}
use burnly.Usage.TraySummary.Query.{Calendar, first_of_next_month, scope_for_date}
use burnly.Usage.TraySummary.Query.Windows.{
  IsEarlier, IsNextYear, IsWindows, scope_for_date-IsWindows,
}

abbrev ymd : ℤ → ℕ → ℕ → Option NaiveDate
ymd (pos y) m d =
    if leb 1 m && leb m 12 && leb 1 d && leb d 31
    then some (y * 372 + (m - 1) * 31 + (d - 1))
    else none
ymd (negsuc y) m d = none

abbrev day : NaiveDate → ℕ
day d = d % 372 % 31 + 1

abbrev calendar : Calendar
calendar = record {
  timezone = λ name. some name;
  from_timestamp_millis = λ instant. some instant;
  date_in = λ instant _. pos_part instant / 86400000;
  checked_sub_days = λ d n. if leb n d then some (d - n) else none;
  checked_add_days = λ d n. some (d + n);
  num_days_from_monday = λ d. d % 7;
  year = λ d. pos (d / 372);
  month = λ d. d % 372 / 31 + 1;
  from_ymd_opt = ymd;
}

abbrev IsYear : ℤ → Type 0
IsYear y = neg_part y ≤ 0

sub-lem : (d n : ℕ) → n ≤ d → calendar.checked_sub_days d n ≡ some (d - n)
sub-lem d n h = ground arith

weekday-le : (d : NaiveDate) → calendar.num_days_from_monday d ≤ 6
weekday-le d = omega arith

month-le : (d : NaiveDate) → (1 ≤ calendar.month d) × (calendar.month d ≤ 12)
month-le d = (omega arith, omega arith)

ymd-first : (y : ℤ) (m : ℕ) → IsYear y → 1 ≤ m → m ≤ 12 → (d : NaiveDate) × (ymd y m 1 ≡ some d)
ymd-first (pos y) m h l u = (y * 372 + (m - 1) * 31, ground arith)
ymd-first (negsuc y) m h l u = (0, ground arith)

ymd-day :
    (d : NaiveDate) → (1 ≤ day d) × (ymd (calendar.year d) (calendar.month d) (day d) ≡ some d)
ymd-day d = (omega arith, ground arith)

ymd_lt :
    (y : ℤ) (m d : ℕ) (y' : ℤ) (m' d' : ℕ) (a b : NaiveDate)
    → ymd y m d ≡ some a
    → ymd y' m' d' ≡ some b
    → IsEarlier (y, m, d) (y', m', d')
    → a < b
ymd_lt (negsuc y) m d y' m' d' a b h k e = ground arith
ymd_lt (pos y) m d (negsuc y') m' d' a b h k e = ground arith
ymd_lt (pos y) m d (pos y') m' d' a b h k (inl e) = ground arith
ymd_lt (pos y) m d (pos y') m' d' a b h k (inr (same, inl e)) = ground arith
ymd_lt (pos y) m d (pos y') m' d' a b h k (inr (same, inr (month, e))) = ground arith

abbrev scope : TraySummaryScope
scope = record {
  today = 1000;
  yesterday = 999;
  week_start = 994;
  week_end = 1000;
  month_start = 992;
  month_end = 1022;
  aggregation_timezone = text "UTC";
}

scope-of : scope_for_date calendar 1000 (text "UTC") ≡ ok scope
unfolding scope_for_date first_of_next_month
scope-of = refl

-- The thirty-first of December.
december : first_of_next_month calendar 743 ≡ some 744
unfolding first_of_next_month
december = refl

after_two : (y : ℤ) → IsNextYear (pos 2) y → IsYear y
after_two (pos n) h = omega arith
after_two (negsuc n) h = omega arith

scope_for_date-IsWindows_example :
    (s : TraySummaryScope) × (scope_for_date calendar 1000 (text "UTC") ≡ ok s)
    × (s.today ≡ 1000)
    × (s.aggregation_timezone ≡ text "UTC")
    × IsWindows calendar s
scope_for_date-IsWindows_example =
    scope_for_date-IsWindows calendar day 1100 IsYear sub-lem (λ d n h. refl) weekday-le month-le
      ymd-first ymd-day ymd_lt 1000 (text "UTC") (omega arith) (omega arith) (omega arith) after_two
