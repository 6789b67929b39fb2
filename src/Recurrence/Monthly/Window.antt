-- ===== src/Recurrence/Monthly/Window.antt =====
-- No four consecutive months lack a fifth Monday, Tuesday and so on.
use native.Mathlib.Numerals.{add-one}
use open_community_groups.Prelude.{
  ℕ, zero, suc, ◌+◌, ◌-◌, ◌*◌, ◌%◌, ◌≤◌, ◌<◌, ◌≡◌, refl, Bool, true, false, ◌&&◌, ◌||◌, none, some,
  if◌then◌else◌, leb, nat_beq, nat_beq_iff, arith, Bool-cases, inl, inr,
}
use open_community_groups.Recurrence.Calendar.{
  ymd, Chrono, IsGregorian, is_leap, month_length, month_start, year_start, max_year,
}
use open_community_groups.Recurrence.Monthly.{next_month, nth_weekday_in_month, nth_from, in_month}

-- The weekday of the first day of a month.
abbrev pub first_weekday : ℕ → ℕ → ℕ
first_weekday y m = (year_start y + month_start (is_leap y) m) % 7

-- The day of the `k`-th weekday `w` in a month whose first day is the weekday `f`.
abbrev pub nth_day : ℕ → ℕ → ℕ → ℕ
nth_day f w k = 1 + (7 + w - f) % 7 + (k - 1) * 7

pub next_lem :
    (y m : ℕ)
    → 1 ≤ m
    → m ≤ 12
    → let (y', m') = next_month y m in (1 ≤ m') × (m' ≤ 12) × (y' * 12 + m' ≡ y * 12 + m + 1)
unfolding next_month
next_lem y m a b = ground arith

month_start-suc :
    (leap : Bool) (m : ℕ)
    → 1 ≤ m
    → month_start leap (m + 1) ≡ month_start leap m + month_length leap m
unfolding month_start
month_start-suc leap zero h = absurd (omega arith)
month_start-suc leap (suc m) h = ground arith

year_start-suc :
    (y : ℕ) → year_start (y + 1) % 7 ≡ (year_start y + (if is_leap y then 366 else 365)) % 7
unfolding year_start is_leap
year_start-suc y = ground arith

year_length :
    (leap : Bool) → month_start leap 12 + month_length leap 12 ≡ (if leap then 366 else 365)
unfolding month_start month_length
year_length true = refl
year_length false = refl

new_year :
    (y : ℕ) → first_weekday (y + 1) 1 ≡ (first_weekday y 12 + month_length (is_leap y) 12) % 7
unfolding month_start
new_year y = omega (arith, year_start-suc y, year_length (is_leap y))

same_year :
    (y m : ℕ)
    → 1 ≤ m
    → first_weekday y (m + 1) ≡ (first_weekday y m + month_length (is_leap y) m) % 7
same_year y m a = omega (arith, month_start-suc (is_leap y) m a)

pub first_weekday-next :
    (y m : ℕ)
    → 1 ≤ m
    → first_weekday (next_month y m).0 (next_month y m).1
      ≡ (first_weekday y m + month_length (is_leap y) m) % 7
unfolding next_month
first_weekday-next y m a = elim (Bool-cases (nat_beq m 12)) [
  | inl e ↦ rw e (rw ((nat_beq_iff m 12).0 e) (new_year y))
  | inr e ↦ rw e (same_year y m a)
]

module _ (c : Chrono) (gregorian : IsGregorian c) where
  pub nth_lem :
      (y m w k : ℕ)
      → y ≤ max_year
      → 1 ≤ m
      → m ≤ 12
      → nth_weekday_in_month c y m w k ≡ (
          if leb (nth_day (first_weekday y m) w k) (month_length (is_leap y) m)
          then some (ymd y m (nth_day (first_weekday y m) w k))
          else none)
  unfolding nth_weekday_in_month nth_from in_month month_length
  nth_lem y m w k a b d = ground (
    arith,
    gregorian.dates y m 1,
    gregorian.weekdays (ymd y m 1),
    gregorian.dates y m (nth_day (first_weekday y m) w k),
  )

-- Whether one of the next months has the fifth weekday `w`, where the first of them is `m` and begins
-- with the weekday `f`, in a year that is leap or not, before one that is or not.
unfoldable pub within : ℕ → ℕ → ℕ → ℕ → Bool → Bool → Bool
unfolding month_length
within zero f w m leap next_leap = false
within (suc months) f w m leap next_leap =
    let len = month_length leap m in
    let same = within months ((f + len) % 7) w (m + 1) leap next_leap in
    let new = within months ((f + len) % 7) w 1 next_leap next_leap in
    leb (nth_day f w 5) len || (if nat_beq m 12 then new else same)

all_below : ℕ → (ℕ → Bool) → Bool
all_below zero p = true
all_below (suc n) p = p n && all_below n p

all_below_lem : (n : ℕ) (p : ℕ → Bool) (x : ℕ) → all_below n p ≡ true → x < n → p x ≡ true
unfolding all_below
all_below_lem zero p x h lt = absurd (omega arith)
all_below_lem (suc n) p x h lt = ground (arith, all_below_lem n p x)

four_months : Bool → Bool → Bool
unfolding all_below within
four_months leap next_leap =
    all_below 7 (λ f. all_below 7 (λ w. all_below 12 (λ m. within 4 f w (m + 1) leap next_leap)))

four_months_lem : (leap next_leap : Bool) → four_months leap next_leap ≡ true
unfolding four_months
four_months_lem true true = refl
four_months_lem true false = refl
four_months_lem false true = refl
four_months_lem false false = refl

-- Whatever the month, one of the four from it on has a fifth weekday `w`.
pub within_four :
    (f w m : ℕ) (leap next_leap : Bool)
    → f < 7
    → w < 7
    → 1 ≤ m
    → m ≤ 12
    → within 4 f w m leap next_leap ≡ true
unfolding four_months
within_four f w zero leap next_leap hf hw a b = absurd (omega arith)
within_four f w (suc m) leap next_leap hf hw a b =
    let by_f =
      all_below_lem 7
        (λ g. all_below 7 (λ v. all_below 12 (λ k. within 4 g v (k + 1) leap next_leap))) f
        (four_months_lem leap next_leap) hf in
    let by_w =
      all_below_lem 7 (λ v. all_below 12 (λ k. within 4 f v (k + 1) leap next_leap)) w by_f hw in
    rw (← add-one m)
      (all_below_lem 12 (λ k. within 4 f w (k + 1) leap next_leap) m by_w (omega arith))

-- The year after matters only if its January is among the months.
within-next_leap :
    (g f w m : ℕ) (leap l l' : Bool) → m + g ≤ 13 → within g f w m leap l ≡ within g f w m leap l'
unfolding within
within-next_leap zero f w m leap l l' h = refl
within-next_leap (suc zero) f w m leap l l' h = ground arith
within-next_leap (suc (suc g)) f w m leap l l' h =
    ground (arith, within-next_leap (suc g) ((f + month_length leap m) % 7) w (m + 1) leap l l')

-- One of the `g` months from this one on has a fifth weekday `w`.
abbrev pub Near : ℕ → ℕ → ℕ → ℕ → Type 0
Near w g y m = within g (first_weekday y m) w m (is_leap y) (is_leap (y + 1)) ≡ true

-- A month that has no fifth weekday `w` leaves the others.
pub Near-next :
    (w g y m : ℕ)
    → 1 ≤ m
    → g ≤ 4
    → Near w (suc g) y m
    → leb (nth_day (first_weekday y m) w 5) (month_length (is_leap y) m) ≡ false
    → Near w g (next_month y m).0 (next_month y m).1
unfolding within next_month
Near-next w g y m a small near missing = elim (Bool-cases (nat_beq m 12)) [
  | inl e ↦ rw e (
      ground (
        arith,
        e,
        near,
        missing,
        (nat_beq_iff m 12).0 e,
        new_year y,
        within-next_leap g (first_weekday (y + 1) 1) w 1 (is_leap (y + 1)) (is_leap (y + 1))
            (is_leap (y + 1 + 1)),
      ))
  | inr e ↦ rw e (ground (arith, e, near, missing, same_year y m a))
]
