-- ===== src/Recurrence/Monthly/Nth.antt =====
-- `nth_weekday_in_month` finds the date that its name says.
use open_community_groups.Prelude.{
  ℕ, ◌+◌, ◌-◌, ◌*◌, ◌/◌, ◌%◌, ◌≤◌, ◌<◌, ◌≡◌, ◌↔◌, true, some, arith,
}
use open_community_groups.Recurrence.Calendar.{
  NaiveDate, ymd, Chrono, is_date, IsGregorian, is_leap, month_start, year_start,
}
use open_community_groups.Recurrence.Monthly.{nth_weekday_in_month, nth_from, in_month, ordinal_of}

-- The date is the one in the month that is the weekday of this ordinal.
abbrev pub IsNth : Chrono → ℕ → ℕ → ℕ → ℕ → NaiveDate → Type 0
IsNth c y m w k t =
    (t.year ≡ y)
    × (t.month ≡ m)
    × (is_date y m t.day ≡ true)
    × (c.weekday t ≡ w)
    × (ordinal_of c t ≡ k)

target_day-eq :
    (b d : ℕ)
    → 1 ≤ d
    → 1 + (7 + (b + d - 1) % 7 - (b + 1 - 1) % 7) % 7 + ((d - 1) / 7 + 1 - 1) * 7 ≡ d
target_day-eq b d h = omega arith

module _ (c : Chrono) (gregorian : IsGregorian c) where
  -- The date that is found in a month is its `k`-th weekday `w`, and if there is such a date, it is
  -- found.
  pub nth_weekday_in_month-IsNth :
      (y m w k : ℕ) (t : NaiveDate)
      → w < 7
      → 1 ≤ k
      → (nth_weekday_in_month c y m w k ≡ some t) ↔ IsNth c y m w k t
  unfolding nth_weekday_in_month nth_from in_month ordinal_of
  nth_weekday_in_month-IsNth y m w k t wk kk = (
    λ e. ground (
      arith,
      gregorian.dates y m 1,
      e,
      gregorian.dates y m (1 + (7 + w - c.weekday (ymd y m 1)) % 7 + (k - 1) * 7),
      gregorian.weekdays (ymd y m 1),
      gregorian.weekdays t,
    ),
    λ h.
        let b = year_start y + month_start (is_leap y) m in
        ground (
          arith,
          target_day-eq b t.day,
          gregorian.dates y m 1,
          gregorian.dates y m t.day,
          gregorian.weekdays (ymd y m 1),
          gregorian.weekdays t,
        ),
  )
