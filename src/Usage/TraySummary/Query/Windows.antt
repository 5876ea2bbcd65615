-- ===== src/Usage/TraySummary/Query/Windows.antt =====
-- The windows of the tray summary: the yesterday, the week and the month of a date.
use burnly.Prelude.{
  ℕ, suc, zero, ◌+◌, ◌-◌, ◌≤◌, ◌<◌, ◌≡◌, refl, ap, ◌∙◌, ==_iff, ◌⊎◌, inl, inr, false, Option, some,
  ok, ◌==◌, Bool-cases, arith,
}
use burnly.Prelude.Text.{Text}
use burnly.Prelude.Int.{ℤ, pos, negsuc, pos_part, neg_part}
use burnly.Domain.Identity.{NaiveDate}
use burnly.Usage.TraySummary.{TraySummaryScope}
use burnly.Usage.TraySummary.Query.{Calendar, next_year, first_of_next_month, scope_for_date}

-- The year, month and day of a date come before those of another.
abbrev pub IsEarlier : ℤ × ℕ × ℕ → ℤ × ℕ × ℕ → Type 0
IsEarlier (y, m, d) (y', m', d') =
    (pos_part y + neg_part y' < pos_part y' + neg_part y)
    ⊎ ((y ≡ y') × ((m < m') ⊎ ((m ≡ m') × (d < d'))))

abbrev pub IsNextYear : ℤ → ℤ → Type 0
IsNextYear y y' = pos_part y' + neg_part y ≡ pos_part y + neg_part y' + 1

-- A year and a month, and those that follow: January follows December.
abbrev pub IsNextMonth : ℤ × ℕ → ℤ × ℕ → Type 0
IsNextMonth (y, m) (y', m') =
    ((m ≡ 12) × IsNextYear y y' × (m' ≡ 1)) ⊎ ((m < 12) × (y' ≡ y) × (m' ≡ m + 1))

-- The days of a scope: yesterday is the day before today, the week is the seven days from a Monday
-- on, and the month goes from its first day to the day before the first of the next; both contain
-- today.
abbrev pub IsWindows : Calendar → TraySummaryScope → Type 0
IsWindows calendar scope =
    (scope.yesterday + 1 ≡ scope.today)
    × (scope.week_start + calendar.num_days_from_monday scope.today ≡ scope.today)
    × (scope.week_end ≡ scope.week_start + 6)
    × (scope.today ≤ scope.week_end)
    × (calendar.from_ymd_opt (calendar.year scope.today) (calendar.month scope.today) 1
        ≡ some scope.month_start)
    × (scope.month_start ≤ scope.today)
    × (scope.today ≤ scope.month_end)
    × ((y : ℤ) × (m : ℕ) × (calendar.from_ymd_opt y m 1 ≡ some (scope.month_end + 1))
        × IsNextMonth (calendar.year scope.today, calendar.month scope.today) (y, m))

next_year-IsNextYear : (y : ℤ) → IsNextYear y (next_year y)
next_year-IsNextYear (pos n) = omega arith
next_year-IsNextYear (negsuc zero) = omega arith
next_year-IsNextYear (negsuc (suc n)) = omega arith

next_year_lt : (y : ℤ) → pos_part y + neg_part (next_year y) < pos_part (next_year y) + neg_part y
next_year_lt (pos n) = omega arith
next_year_lt (negsuc zero) = omega arith
next_year_lt (negsuc (suc n)) = omega arith

not_december : (n : ℕ) → n ≤ 12 → (n == 12) ≡ false → n + 1 ≤ 12
not_december n h e = ground arith

first_or_later : (n : ℕ) → 1 ≤ n → (1 ≡ n) ⊎ (1 < n)
first_or_later n h = omega arith

same-some : {A : Type 0} {o : Option A} {a b : A} → o ≡ some a → o ≡ some b → a ≡ b
same-some h k = cc

-- What chrono documents, where dates are positions: subtracting and adding days is exact as far as
-- there are dates; Monday is 0 and Sunday 6; a month is one of 1 to 12; every month of a year with
-- dates has a first day; a date has its own year, month and day; and dates are in the order of
-- year, month and day.
module _ (calendar : Calendar) (day : NaiveDate → ℕ) (last : NaiveDate) (IsYear : ℤ → Type 0)
    (sub : (d n : ℕ) → n ≤ d → calendar.checked_sub_days d n ≡ some (d - n))
    (add : (d n : ℕ) → d + n ≤ last → calendar.checked_add_days d n ≡ some (d + n))
    (weekday : (d : NaiveDate) → calendar.num_days_from_monday d ≤ 6)
    (month : (d : NaiveDate) → (1 ≤ calendar.month d) × (calendar.month d ≤ 12))
    (first : (y : ℤ) (m : ℕ)
      → IsYear y
      → 1 ≤ m
      → m ≤ 12
      → (d : NaiveDate) × (calendar.from_ymd_opt y m 1 ≡ some d))
    (same : (d : NaiveDate)
      → 1 ≤ day d × (calendar.from_ymd_opt (calendar.year d) (calendar.month d) (day d) ≡ some d))
    (earlier : (y : ℤ) (m d : ℕ) (y' : ℤ) (m' d' : ℕ) (a b : NaiveDate)
      → calendar.from_ymd_opt y m d ≡ some a
      → calendar.from_ymd_opt y' m' d' ≡ some b
      → IsEarlier (y, m, d) (y', m', d')
      → a < b) where
  next-after :
      (today : NaiveDate)
      → IsYear (calendar.year today)
      → ((y : ℤ) → IsNextYear (calendar.year today) y → IsYear y)
      → (d : NaiveDate) × (y : ℤ) × (m : ℕ) × (first_of_next_month calendar today ≡ some d)
        × (today < d)
        × (calendar.from_ymd_opt y m 1 ≡ some d)
        × IsNextMonth (calendar.year today, calendar.month today) (y, m)
  unfolding first_of_next_month
  next-after today this next = elim (Bool-cases (calendar.month today == 12)) [
    | inl december ↦
        let y = next_year (calendar.year today) in
        let follows = next_year-IsNextYear (calendar.year today) in
        let (d, made) = first y 1 (next y follows) (omega arith) (omega arith) in
        (
          d,
          y,
          1,
          rw december made,
          earlier _ _ _ _ _ _ today d (same today).1 made
              (inl (next_year_lt (calendar.year today))),
          made,
          inl ((==_iff (calendar.month today) 12).0 december, follows, refl),
        )
    | inr before ↦
        let early = not_december _ (month today).1 before in
        let (d, made) =
          first (calendar.year today) (calendar.month today + 1) this (omega arith) early in
        (
          d,
          calendar.year today,
          calendar.month today + 1,
          rw before made,
          earlier _ _ _ _ _ _ today d (same today).1 made (inr (refl, inl (omega arith))),
          made,
          inr (omega arith, refl, refl),
        )
  ]

  by_day :
      (today : NaiveDate)
      → 1 ≡ day today
      → calendar.from_ymd_opt (calendar.year today) (calendar.month today) 1 ≡ some today
  by_day today e = rw e (same today).1

  first-before :
      (today d : NaiveDate)
      → calendar.from_ymd_opt (calendar.year today) (calendar.month today) 1 ≡ some d
      → d ≤ today
  first-before today d made = elim (first_or_later (day today) (same today).0) [
    | inl e ↦ omega (arith, same-some made (by_day today e))
    | inr later ↦
        omega
          (arith, earlier _ _ _ _ _ _ d today made (same today).1 (inr (refl, inr (refl, later))))
  ]

  -- Assume the documented laws of chrono's calendar. A date whose year and the next have dates, and
  -- which has six days before it and six after it, has a scope with that date as today and the
  -- timezone as given. Its yesterday is the day before today; its week is seven days from the
  -- Monday of today on and contains today; its month goes from the first of today's month to the
  -- day before the first of the next month and contains today.
  pub scope_for_date-IsWindows :
      (today : NaiveDate) (timezone : Text)
      → 6 ≤ today
      → today + 6 ≤ last
      → IsYear (calendar.year today)
      → ((y : ℤ) → IsNextYear (calendar.year today) y → IsYear y)
      → (scope : TraySummaryScope) × (scope_for_date calendar today timezone ≡ ok scope)
        × (scope.today ≡ today)
        × (scope.aggregation_timezone ≡ timezone)
        × IsWindows calendar scope
  unfolding scope_for_date
  scope_for_date-IsWindows today timezone low high this next =
      let (start, started) =
        first (calendar.year today) (calendar.month today) this (month today).0 (month today).1 in
      let (after, y, m, made, later, dated, follows) = next-after today this next in
      let back = calendar.num_days_from_monday today in
      let monday = today - back in
      (
        record {
          today = today;
          yesterday = today - 1;
          week_start = monday;
          week_end = monday + 6;
          month_start = start;
          month_end = after - 1;
          aggregation_timezone = timezone;
        },
        rw
            (
              sub today 1 (omega arith),
              sub today back (omega (arith, weekday today)),
              add monday 6 (omega arith),
              started,
              made,
              sub after 1 (omega arith),
            )
            refl,
        refl,
        refl,
        (
          omega arith,
          omega (arith, weekday today),
          refl,
          omega (arith, weekday today),
          started,
          first-before today start started,
          omega arith,
          (y, m, dated ∙ ap some (omega arith), follows),
        ),
      )
