-- ===== src/Recurrence/Monthly.antt =====
-- `monthly_occurrences_start_times`: the same weekday of the month, such as the third Monday, in the
-- months that follow.
pub mod Nth
pub mod Window
pub mod Ends
pub mod Series
pub mod Complete
mod Tests
use open_community_groups.Prelude.{
  ℕ, zero, suc, ◌+◌, ◌-◌, ◌*◌, ◌/◌, ◌%◌, Bool, true, false, Option, none, some, List, [], ◌∷◌,
  if◌then◌else◌, nat_beq,
}
use open_community_groups.Recurrence.Calendar.{NaiveDate, NaiveDateTime, Chrono}

-- The year and the month that follow.
pub next_month : ℕ → ℕ → ℕ × ℕ
next_month year month = if nat_beq month 12 then (year + 1, 1) else (year, month + 1)

module _ (c : Chrono) where
  -- A date that overflowed into the next month would be rejected.
  in_month : ℕ → Option NaiveDate → Option NaiveDate
  in_month month none = none
  in_month month (some target_date) =
      if nat_beq target_date.month month then some target_date else none

  nth_from : ℕ → ℕ → ℕ → ℕ → Option NaiveDate → Option NaiveDate
  unfolding in_month
  nth_from year month weekday ordinal none = none
  nth_from year month weekday ordinal (some first_day) =
      let weekday_offset = (7 + weekday - c.weekday first_day) % 7 in
      let target_day = 1 + weekday_offset + (ordinal - 1) * 7 in
      in_month month (c.from_ymd_opt year month target_day)

  pub nth_weekday_in_month : ℕ → ℕ → ℕ → ℕ → Option NaiveDate
  unfolding nth_from
  nth_weekday_in_month year month weekday ordinal =
      nth_from year month weekday ordinal (c.from_ymd_opt year month 1)

  -- The loop, over so many months at most; `none` if occurrences are missing then.
  pub occurrences : ℕ → ℕ → ℕ → ℕ → ℕ → ℕ → ℕ → Option (List NaiveDateTime)
  unfolding next_month nth_weekday_in_month
  occurrences fuel zero year month weekday ordinal time = some []
  occurrences zero (suc missing) year month weekday ordinal time = none
  occurrences (suc fuel) (suc missing) year month weekday ordinal time =
      let (y, m) = next_month year month in
      elim (nth_weekday_in_month y m weekday ordinal) [
        | none ↦ occurrences fuel (suc missing) y m weekday ordinal time
        | some next_date ↦ elim (occurrences fuel missing y m weekday ordinal time) [
          | none ↦ none
          | some later ↦ some (record { date = next_date; time = time } ∷ later)
        ]
      ]

  pub ordinal_of : NaiveDate → ℕ
  ordinal_of date = (date.day - 1) / 7 + 1

  pub monthly_occurrences_start_times : ℕ → NaiveDateTime → ℕ → Option (List NaiveDateTime)
  unfolding occurrences ordinal_of
  monthly_occurrences_start_times fuel starts_at additional_occurrences =
      occurrences fuel additional_occurrences starts_at.date.year starts_at.date.month
        (c.weekday starts_at.date) (ordinal_of starts_at.date) starts_at.time
