-- ===== src/Recurrence/Monthly/Ends.antt =====
-- The loop of `monthly_occurrences_start_times` ends, with as many occurrences as it is asked for.
use open_community_groups.Prelude.{
  ℕ, zero, suc, ◌+◌, ◌*◌, ◌≤◌, ◌<◌, ◌≡◌, refl, ap, none, some, List, [], ◌∷◌, length, leb, arith,
  Bool-cases, inl, inr,
}
use open_community_groups.Recurrence.Calendar.{
  NaiveDate, NaiveDateTime, Chrono, IsGregorian, is_leap, month_length, max_year,
}
use open_community_groups.Recurrence.Monthly.{next_month, nth_weekday_in_month, occurrences}
use open_community_groups.Recurrence.Monthly.Window.{
  first_weekday, nth_day, next_lem, nth_lem, within, within_four, Near, Near-next,
}

module _ (c : Chrono) (gregorian : IsGregorian c) (w k time : ℕ) (hw : w < 7) (hk : k ≤ 5) where
  abbrev pub Ends : ℕ → ℕ → ℕ → ℕ → Type 0
  Ends fuel n y m =
      (os : List NaiveDateTime) × (occurrences c fuel n y m w k time ≡ some os) × (length os ≡ n)

  Near-four : (y m : ℕ) → 1 ≤ m → m ≤ 12 → Near w 4 y m
  Near-four y m a b =
      within_four (first_weekday y m) w m (is_leap y) (is_leap (y + 1)) (omega arith) hw a b

  -- An occurrence in the next month, and those after it.
  Ends-found :
      (fuel n y m : ℕ) (t : NaiveDate)
      → nth_weekday_in_month c (next_month y m).0 (next_month y m).1 w k ≡ some t
      → Ends fuel n (next_month y m).0 (next_month y m).1
      → Ends (suc fuel) (suc n) y m
  unfolding occurrences
  Ends-found fuel n y m t found (os, e, l) =
      (record { date = t; time = time } ∷ os, ground (arith, found, e), ap suc l)

  Ends-skipped :
      (fuel n y m : ℕ)
      → nth_weekday_in_month c (next_month y m).0 (next_month y m).1 w k ≡ none
      → Ends fuel (suc n) (next_month y m).0 (next_month y m).1
      → Ends (suc fuel) (suc n) y m
  unfolding occurrences
  Ends-skipped fuel n y m missing (os, e, l) = (os, ground (arith, missing, e), l)

  Ends-nothing : (fuel y m : ℕ) → Ends fuel 0 y m
  unfolding occurrences
  Ends-nothing fuel y m = ([], refl, refl)

  Ends-step :
      (fuel g n y m : ℕ)
      → 1 ≤ m
      → m ≤ 12
      → y * 12 + m + suc fuel ≤ max_year * 12 + 12
      → g ≤ 4
      → Near w (suc g) (next_month y m).0 (next_month y m).1
      → Ends fuel n (next_month y m).0 (next_month y m).1
      → (Near w g
            (next_month (next_month y m).0 (next_month y m).1).0
            (next_month (next_month y m).0 (next_month y m).1).1
          → Ends fuel (suc n) (next_month y m).0 (next_month y m).1)
      → Ends (suc fuel) (suc n) y m
  Ends-step fuel g n y m a b range small near later skip =
      let y' = (next_month y m).0 in
      let m' = (next_month y m).1 in
      let (a', b', i) = next_lem y m a b in
      let nth = nth_lem c gregorian y' m' w k (omega arith) a' b' in
      elim (Bool-cases (leb (nth_day (first_weekday y' m') w k) (month_length (is_leap y') m'))) [
        | inr e ↦
            Ends-skipped fuel n y m (rw e at nth)
              (skip (Near-next w g y' m' a' small near (ground (arith, e))))
        | inl e ↦ Ends-found fuel n y m _ (rw e at nth) later
      ]

  -- With fuel for four months for each occurrence, and `g` months for the next one.
  ends :
      (fuel g n y m : ℕ)
      → 1 ≤ m
      → m ≤ 12
      → y * 12 + m + fuel ≤ max_year * 12 + 12
      → g + 4 * n ≤ fuel
      → g ≤ 4
      → Near w g (next_month y m).0 (next_month y m).1
      → Ends fuel (suc n) y m
  unfolding within
  ends zero zero n y m a b range enough small near = cc
  ends zero (suc g) n y m a b range enough small near = absurd (omega arith)
  ends (suc fuel) zero n y m a b range enough small near = cc
  ends (suc fuel) (suc g) zero y m a b range enough small near =
      let (a', b', i) = next_lem y m a b in
      Ends-step fuel g 0 y m a b range (omega arith) near (Ends-nothing fuel _ _)
        (ends fuel g 0 _ _ a' b' (omega arith) (omega arith) (omega arith))
  ends (suc fuel) (suc g) (suc n) y m a b range enough small near =
      let (a', b', i) = next_lem y m a b in
      let (a'', b'', i') = next_lem _ _ a' b' in
      Ends-step fuel g (suc n) y m a b range (omega arith) near
        (ends fuel 4 n (next_month y m).0 (next_month y m).1 a' b' (omega arith) (omega arith)
          (omega arith) (Near-four _ _ a'' b''))
        (ends fuel g (suc n) (next_month y m).0 (next_month y m).1 a' b' (omega arith) (omega arith)
          (omega arith))

  pub Ends-all :
      (fuel n y m : ℕ)
      → 1 ≤ m
      → m ≤ 12
      → y * 12 + m + fuel ≤ max_year * 12 + 12
      → 4 * n ≤ fuel
      → Ends fuel n y m
  Ends-all fuel zero y m a b range enough = Ends-nothing fuel y m
  Ends-all fuel (suc n) y m a b range enough =
      let (a', b', i) = next_lem y m a b in
      ends fuel 4 n y m a b range (omega arith) (omega arith) (Near-four _ _ a' b')
