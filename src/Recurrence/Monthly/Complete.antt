-- ===== src/Recurrence/Monthly/Complete.antt =====
-- The occurrences of a monthly series repeat the base date, and none is left out.
use mathlib.Core.List.{Memᴰ}
use mathlib.Core.Path.{subst}
use open_community_groups.Prelude.{
  ℕ, ◌+◌, ◌*◌, ◌≤◌, ◌<◌, ◌≡◌, ◌⊎◌, true, some, List, [], ◌∷◌, map, length, All, arith, inl, inr,
  Bool-cases, ltb,
}
use open_community_groups.Recurrence.Calendar.{
  NaiveDate, NaiveDateTime, Chrono, IsGregorian, is_date, max_year, month_length,
}
use open_community_groups.Recurrence.Monthly.{ordinal_of, monthly_occurrences_start_times}
use open_community_groups.Recurrence.Monthly.Nth.{IsNth, nth_weekday_in_month-IsNth}
use open_community_groups.Recurrence.Monthly.Series.{
  month_of, Series, occurrences-Series, monthly-Series,
}

module _ (c : Chrono) (w k time : ℕ) where
  -- Each occurrence is in a later month than the one before, at the same time of the day, and is the
  -- `k`-th weekday `w` of its month.
  abbrev pub Repeats : ℕ → List NaiveDateTime → Type 0
  Repeats from [] = Unit
  Repeats from (o ∷ os) =
      (from < month_of o.date)
      × (o.time ≡ time)
      × IsNth c o.date.year o.date.month w k o.date
      × Repeats (month_of o.date) os

  Series-Repeats :
      (from : ℕ) (os : List NaiveDateTime) → Series c w k time from os → Repeats from os
  Series-Repeats from [] s = tt
  Series-Repeats from (o ∷ os) (later, at, nth, skips, rest) =
      (later, at, nth, Series-Repeats (month_of o.date) os rest)

  module _ (gregorian : IsGregorian c) (hw : w < 7) (hk : 1 ≤ k) where
    IsNth-unique : (y m : ℕ) (t u : NaiveDate) → IsNth c y m w k t → IsNth c y m w k u → t ≡ u
    IsNth-unique y m t u p q =
        let a = (nth_weekday_in_month-IsNth c gregorian y m w k t hw hk).1 p in
        let b = (nth_weekday_in_month-IsNth c gregorian y m w k u hw hk).1 q in cc

    same_month :
        (y m : ℕ) (t u : NaiveDate)
        → 1 ≤ m
        → m ≤ 12
        → month_of u ≡ y * 12 + m
        → IsNth c y m w k t
        → IsNth c u.year u.month w k u
        → t ≡ u
    same_month y m t u a b e p q =
        let year : u.year ≡ y = ground arith in
        let month : u.month ≡ m = ground arith in
        IsNth-unique y m t u p
          (subst (λ v. IsNth c y v w k u) month (subst (λ v. IsNth c v u.month w k u) year q))

    Series-complete :
        (from : ℕ) (os : List NaiveDateTime) (y m : ℕ) (t : NaiveDate)
        → Series c w k time from os
        → 1 ≤ m
        → m ≤ 12
        → from < y * 12 + m
        → IsNth c y m w k t
        → Memᴰ t (map (λ (o : NaiveDateTime). o.date) os)
          ⊎ All (λ o. month_of o.date < y * 12 + m) os
    Series-complete from [] y m t s a b later nth = inr tt
    Series-complete from (o ∷ os) y m t (late, at, here, skips, rest) a b later nth =
        elim (Bool-cases (ltb (month_of o.date) (y * 12 + m))) [
          | inl before ↦
              elim (Series-complete (month_of o.date) os y m t rest a b (ground arith) nth) [
                | inl found ↦ inl (Memᴰ.tail found)
                | inr all ↦ inr (ground arith, all)
              ]
          | inr not_before ↦ elim (Bool-cases (ltb (y * 12 + m) (month_of o.date))) [
            | inl between ↦ absurd (skips y m t a b later (ground arith) nth)
            | inr equal ↦ inl (Memᴰ.head (same_month y m t o.date a b (ground arith) nth here))
          ]
        ]

module _ (c : Chrono) (starts_at : NaiveDateTime) (n fuel : ℕ) where
  -- From a date of the calendar, the loop ends within four months for each additional occurrence, if
  -- these months are in chrono's range. It returns as many occurrences as it is asked for, each in a
  -- later month than the one before, at the time of the day of the start, and the same weekday of its
  -- month, counted from the first day of the month, as the start.
  pub monthly_occurrences_start_times-Repeats :
      IsGregorian c
      → is_date starts_at.date.year starts_at.date.month starts_at.date.day ≡ true
      → 4 * n ≤ fuel
      → month_of starts_at.date + fuel ≤ max_year * 12 + 12
      → (os : List NaiveDateTime) × (monthly_occurrences_start_times c fuel starts_at n ≡ some os)
        × (length os ≡ n)
        × Repeats c
            (c.weekday starts_at.date)
            (ordinal_of c starts_at.date)
            starts_at.time
            (month_of starts_at.date)
            os
  monthly_occurrences_start_times-Repeats gregorian date enough range =
      let (os, e, l, s) = monthly-Series c starts_at n fuel gregorian date enough range in
      (
        os,
        e,
        l,
        Series-Repeats c (c.weekday starts_at.date) (ordinal_of c starts_at.date) starts_at.time
            (month_of starts_at.date) os s,
      )

  -- A monthly series from a date of the calendar leaves out no month: a later date that is the same
  -- weekday of its month as the start is the date of an occurrence, or all occurrences are in earlier
  -- months.
  pub monthly_occurrences_start_times_complete :
      (os : List NaiveDateTime) (y m : ℕ) (t : NaiveDate)
      → IsGregorian c
      → is_date starts_at.date.year starts_at.date.month starts_at.date.day ≡ true
      → monthly_occurrences_start_times c fuel starts_at n ≡ some os
      → 1 ≤ m
      → m ≤ 12
      → month_of starts_at.date < y * 12 + m
      → IsNth c y m (c.weekday starts_at.date) (ordinal_of c starts_at.date) t
      → Memᴰ t (map (λ (o : NaiveDateTime). o.date) os) ⊎ All (λ o. month_of o.date < y * 12 + m) os
  unfolding monthly_occurrences_start_times ordinal_of month_length
  monthly_occurrences_start_times_complete os y m t gregorian date e a b later nth =
      let d = starts_at.date in
      let w = c.weekday d in
      let hw : w < 7 = omega (arith, gregorian.weekdays d) in
      let hk : 1 ≤ ordinal_of c d = omega arith in
      Series-complete c w (ordinal_of c d) starts_at.time gregorian hw hk (month_of d) os y m t
        (occurrences-Series c w (ordinal_of c d) starts_at.time gregorian hw hk fuel n d.year
          d.month os (ground arith) (ground arith) e)
        a b later nth
