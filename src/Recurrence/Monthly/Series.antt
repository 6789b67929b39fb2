-- ===== src/Recurrence/Monthly/Series.antt =====
-- What the occurrences of a monthly series are.
use mathlib.Core.Path.{subst}
use open_community_groups.Prelude.{
  ℕ, zero, suc, ◌+◌, ◌*◌, ◌≤◌, ◌<◌, ◌≡◌, refl, true, none, some, List, [], ◌∷◌, length, arith,
  Option-cases, sym, ◌∙◌, Bool-cases, ltb, inl, inr,
}
use open_community_groups.Recurrence.Calendar.{
  NaiveDate, NaiveDateTime, Chrono, IsGregorian, is_date, max_year, month_length,
}
use open_community_groups.Recurrence.Monthly.{
  next_month, nth_weekday_in_month, occurrences, ordinal_of, monthly_occurrences_start_times,
}
use open_community_groups.Recurrence.Monthly.Nth.{IsNth, nth_weekday_in_month-IsNth}
use open_community_groups.Recurrence.Monthly.Window.{next_lem}
use open_community_groups.Recurrence.Monthly.Ends.{Ends-all}

-- The number of a month.
abbrev pub month_of : NaiveDate → ℕ
month_of t = t.year * 12 + t.month

module _ (c : Chrono) (w k time : ℕ) where
  -- No month between two has a `k`-th weekday `w`.
  abbrev pub Skips : ℕ → ℕ → Type 0
  Skips from until =
      (y m : ℕ) (t : NaiveDate)
      → 1 ≤ m
      → m ≤ 12
      → from < y * 12 + m
      → y * 12 + m < until
      → ¬ IsNth c y m w k t

  -- Each occurrence is the `k`-th weekday `w` of the first month after the one before that has it,
  -- at the same time of the day.
  abbrev pub Series : ℕ → List NaiveDateTime → Type 0
  Series from [] = Unit
  Series from (o ∷ os) =
      (from < month_of o.date)
      × (o.time ≡ time)
      × IsNth c o.date.year o.date.month w k o.date
      × Skips from (month_of o.date)
      × Series (month_of o.date) os

  skips_month :
      (y m y' m' : ℕ) (t : NaiveDate)
      → 1 ≤ m
      → m ≤ 12
      → 1 ≤ m'
      → m' ≤ 12
      → ((t : NaiveDate) → ¬ IsNth c y m w k t)
      → y' * 12 + m' ≡ y * 12 + m
      → ¬ IsNth c y' m' w k t
  skips_month y m y' m' t a b a' b' missing e x =
      let same_year : y' ≡ y = omega arith in
      let same_month : m' ≡ m = omega arith in
      missing t
        (subst (λ v. IsNth c y v w k t) same_month (subst (λ v. IsNth c v m' w k t) same_year x))

  Series-skip :
      (y m : ℕ) (os : List NaiveDateTime)
      → 1 ≤ m
      → m ≤ 12
      → ((t : NaiveDate) → ¬ IsNth c (next_month y m).0 (next_month y m).1 w k t)
      → Series ((next_month y m).0 * 12 + (next_month y m).1) os
      → Series (y * 12 + m) os
  Series-skip y m [] a b missing s = tt
  Series-skip y m (o ∷ os) a b missing (later, at, nth, skips, rest) =
      let (a', b', i) = next_lem y m a b in
      let y1 = (next_month y m).0 in
      let m1 = (next_month y m).1 in
      let skips' : Skips (y * 12 + m) (month_of o.date) = λ y' m' t p q r s x.
        elim (Bool-cases (ltb (y1 * 12 + m1) (y' * 12 + m'))) [
          | inl e ↦ skips y' m' t p q (ground arith) s x
          | inr e ↦ skips_month y1 m1 y' m' t a' b' p q missing (ground arith) x
        ] in
      (omega arith, at, nth, skips', rest)

  Series-cons :
      (y m : ℕ) (t : NaiveDate) (os : List NaiveDateTime)
      → 1 ≤ m
      → m ≤ 12
      → IsNth c (next_month y m).0 (next_month y m).1 w k t
      → Series ((next_month y m).0 * 12 + (next_month y m).1) os
      → Series (y * 12 + m) (record { date = t; time = time } ∷ os)
  Series-cons y m t os a b nth s =
      let (_, _, i) = next_lem y m a b in
      let at : (next_month y m).0 * 12 + (next_month y m).1 ≡ month_of t = ground (arith, nth) in
      (
        omega arith,
        refl,
        ground (arith, nth),
        λ y' m' t' p q r s' x. absurd (omega arith),
        subst (λ from. Series from os) at s,
      )

  skipped :
      (fuel n y m : ℕ)
      → nth_weekday_in_month c (next_month y m).0 (next_month y m).1 w k ≡ none
      → occurrences c (suc fuel) (suc n) y m w k time
        ≡ occurrences c fuel (suc n) (next_month y m).0 (next_month y m).1 w k time
  unfolding occurrences
  skipped fuel n y m missing = ground (arith, missing)

  found_some :
      (fuel n y m : ℕ) (t : NaiveDate) (os : List NaiveDateTime)
      → nth_weekday_in_month c (next_month y m).0 (next_month y m).1 w k ≡ some t
      → occurrences c (suc fuel) (suc n) y m w k time ≡ some os
      → (later : List NaiveDateTime) × (occurrences c fuel n
            (next_month y m).0
            (next_month y m).1
            w
            k
            time
          ≡ some later)
        × (record { date = t; time = time } ∷ later ≡ os)
  unfolding occurrences
  found_some fuel n y m t os found e =
      elim (Option-cases (occurrences c fuel n (next_month y m).0 (next_month y m).1 w k time)) [
        | inl nothing ↦ absurd (ground (arith, found, nothing, e))
        | inr (later, rest) ↦ (later, rest, ground (arith, found, rest, e))
      ]

  module _ (gregorian : IsGregorian c) (hw : w < 7) (hk : 1 ≤ k) where
    pub occurrences-Series :
        (fuel n y m : ℕ) (os : List NaiveDateTime)
        → 1 ≤ m
        → m ≤ 12
        → occurrences c fuel n y m w k time ≡ some os
        → Series (y * 12 + m) os
    unfolding occurrences
    occurrences-Series fuel zero y m os a b e =
        let shape : [] ≡ os = ground (arith, e) in subst (Series (y * 12 + m)) shape tt
    occurrences-Series zero (suc n) y m os a b e = cc
    occurrences-Series (suc fuel) (suc n) y m os a b e =
        let y1 = (next_month y m).0 in
        let m1 = (next_month y m).1 in
        let (a', b', i) = next_lem y m a b in
        elim (Option-cases (nth_weekday_in_month c y1 m1 w k)) [
          | inl missing ↦
              Series-skip y m os a b
                (λ t x. cc ((nth_weekday_in_month-IsNth c gregorian y1 m1 w k t hw hk).1 x))
                (occurrences-Series fuel (suc n) y1 m1 os a' b'
                  (sym (skipped fuel n y m missing) ∙ e))
          | inr (t, found) ↦
              let (later, rest, shape) = found_some fuel n y m t os found e in
              subst (Series (y * 12 + m)) shape (
                Series-cons y m t later a b
                  ((nth_weekday_in_month-IsNth c gregorian y1 m1 w k t hw hk).0 found)
                  (occurrences-Series fuel n y1 m1 later a' b' rest))
        ]

-- From a date of the calendar, the loop ends within four months for each occurrence, if these are in
-- chrono's range. It returns as many occurrences as it is asked for, and they are the same weekday
-- of the month as the base date, counted from its first day, at the same time, in the first months
-- after the base date that have it.
pub monthly-Series :
    (c : Chrono) (starts_at : NaiveDateTime) (n fuel : ℕ)
    → IsGregorian c
    → is_date starts_at.date.year starts_at.date.month starts_at.date.day ≡ true
    → 4 * n ≤ fuel
    → month_of starts_at.date + fuel ≤ max_year * 12 + 12
    → (os : List NaiveDateTime) × (monthly_occurrences_start_times c fuel starts_at n ≡ some os)
      × (length os ≡ n)
      × Series c
          (c.weekday starts_at.date)
          (ordinal_of c starts_at.date)
          starts_at.time
          (month_of starts_at.date)
          os
unfolding monthly_occurrences_start_times ordinal_of month_length
monthly-Series c starts_at n fuel gregorian date enough range =
    let t = starts_at.date in
    let w = c.weekday t in
    let k = ordinal_of c t in
    let hw : w < 7 = omega (arith, gregorian.weekdays t) in
    let a : 1 ≤ t.month = ground arith in
    let b : t.month ≤ 12 = ground arith in
    let hk : k ≤ 5 = ground arith in
    let (os, e, l) =
      Ends-all c gregorian w k starts_at.time hw hk fuel n t.year t.month a b range enough in
    (
      os,
      e,
      l,
      occurrences-Series c w k starts_at.time gregorian hw (omega arith) fuel n t.year t.month os a
          b e,
    )
