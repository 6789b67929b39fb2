-- ===== src/Recurrence/Monthly/Tests.antt =====
-- Monthly series on the calendar itself.
use mathlib.Core.List.{Memᴰ}
use open_community_groups.Prelude.{
  ◌*◌, ◌<◌, ◌≡◌, ◌⊎◌, ◌↔◌, refl, true, none, some, List, [], ◌∷◌, map, length, All, arith,
  if◌then◌else◌,
}
use open_community_groups.Recurrence.Calendar.{
  NaiveDateTime, ymd, Chrono, IsGregorian, is_date, weekday_of, is_leap, month_length, month_start,
  year_start,
}
use open_community_groups.Recurrence.Monthly.{
  next_month, nth_weekday_in_month, nth_from, in_month, occurrences, ordinal_of,
  monthly_occurrences_start_times,
}
use open_community_groups.Recurrence.Monthly.Nth.{IsNth, nth_weekday_in_month-IsNth}
use open_community_groups.Recurrence.Monthly.Series.{month_of}
use open_community_groups.Recurrence.Monthly.Complete.{
  Repeats, monthly_occurrences_start_times-Repeats, monthly_occurrences_start_times_complete,
}

abbrev chrono : Chrono
chrono = record {
  from_ymd_opt = λ y m d. if is_date y m d then some (ymd y m d) else none;
  weekday = weekday_of;
  weeks = λ n. n * 7;
  add = λ t d. some t;
  sub = λ t s. 0;
}

gregorian : IsGregorian chrono
gregorian = record { dates = λ y m d. refl; weekdays = λ t. refl }

-- The fifth Friday of January 2026, at eight in the evening.
abbrev fifth_friday : NaiveDateTime
fifth_friday = record { date = ymd 2026 1 30; time = 20 }

abbrev series : List NaiveDateTime
series =
    record { date = ymd 2026 5 29; time = 20 } ∷ record { date = ymd 2026 7 31; time = 20 } ∷ []

-- February, March, April and June have no fifth Friday.
series_lem : monthly_occurrences_start_times chrono 8 fifth_friday 2 ≡ some series
unfolding monthly_occurrences_start_times occurrences next_month nth_weekday_in_month nth_from
    in_month ordinal_of is_leap month_length month_start year_start
series_lem = refl

is_date_lem : is_date 2026 1 30 ≡ true
unfolding is_leap month_length
is_date_lem = refl

friday : weekday_of (ymd 2026 1 30) ≡ 4
unfolding is_leap month_length month_start year_start
friday = refl

third_monday : IsNth chrono 2026 2 0 3 (ymd 2026 2 16)
unfolding ordinal_of is_leap month_length month_start year_start
third_monday = (refl, refl, refl, refl, refl)

may :
    IsNth chrono 2026 5
      (weekday_of (ymd 2026 1 30))
      (ordinal_of chrono (ymd 2026 1 30))
      (ymd 2026 5 29)
unfolding ordinal_of is_leap month_length month_start year_start
may = (refl, refl, refl, refl, refl)

nth_weekday_in_month-IsNth_example :
    (nth_weekday_in_month chrono 2026 2 0 3 ≡ some (ymd 2026 2 16))
    ↔ IsNth chrono 2026 2 0 3 (ymd 2026 2 16)
nth_weekday_in_month-IsNth_example =
    nth_weekday_in_month-IsNth chrono gregorian 2026 2 0 3 (ymd 2026 2 16) (omega arith)
      (omega arith)

monthly_occurrences_start_times-Repeats_example :
    (os : List NaiveDateTime) × (monthly_occurrences_start_times chrono 8 fifth_friday 2 ≡ some os)
    × (length os ≡ 2)
    × Repeats chrono (weekday_of (ymd 2026 1 30)) (ordinal_of chrono (ymd 2026 1 30)) 20 24313 os
monthly_occurrences_start_times-Repeats_example =
    monthly_occurrences_start_times-Repeats chrono fifth_friday 2 8 gregorian is_date_lem
      (omega arith) (omega arith)

monthly_occurrences_start_times_complete_example :
    Memᴰ (ymd 2026 5 29) (map (λ (o : NaiveDateTime). o.date) series)
    ⊎ All (λ (o : NaiveDateTime). month_of o.date < 24317) series
monthly_occurrences_start_times_complete_example =
    monthly_occurrences_start_times_complete chrono fifth_friday 2 8 series 2026 5 (ymd 2026 5 29)
      gregorian is_date_lem series_lem (omega arith) (omega arith) (omega arith) may
