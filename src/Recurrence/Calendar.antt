-- ===== src/Recurrence/Calendar.antt =====
-- What recurrence.rs uses of the `chrono` crate, and the calendar by which its documentation describes
-- it. A year is not negative, a time is its nanoseconds of the day, a weekday is its number of days
-- from Monday, and a `TimeDelta` is a number that only chrono looks into. An addition that
-- leaves chrono's range, which panics, gives nothing.
use open_community_groups.Prelude.{
  ℕ, zero, suc, ◌+◌, ◌-◌, ◌*◌, ◌/◌, ◌%◌, ◌≡◌, String, Bool, not, ◌&&◌, ◌||◌, Option, none, some,
  if◌then◌else◌, leb, nat_beq,
}

pub record NaiveDate : Type 0 where
  pub year : ℕ
  pub month : ℕ
  pub day : ℕ

abbrev pub ymd : ℕ → ℕ → ℕ → NaiveDate
ymd y m d = record { year = y; month = m; day = d }

pub record NaiveDateTime : Type 0 where
  pub date : NaiveDate
  pub time : ℕ

abbrev pub TimeDelta : Type 0
TimeDelta = ℕ

-- How a function of recurrence.rs ends without a value: with an `anyhow::Error`, by the text that it
-- displays, or with a panic.
pub data Stop : Type 0 where
  error : String → Stop
  panic : Stop

pub record Chrono : Type 0 where
  pub from_ymd_opt : ℕ → ℕ → ℕ → Option NaiveDate
  pub weekday : NaiveDate → ℕ
  pub weeks : ℕ → TimeDelta
  pub add : NaiveDateTime → TimeDelta → Option NaiveDateTime
  pub sub : NaiveDateTime → NaiveDateTime → TimeDelta

-- The Gregorian calendar.
abbrev pub divides : ℕ → ℕ → Bool
divides k n = nat_beq (n % k) 0

unfoldable pub is_leap : ℕ → Bool
is_leap y = divides 4 y && (not (divides 100 y) || divides 400 y)

unfoldable pub month_length : Bool → ℕ → ℕ
month_length leap m =
    if nat_beq m 2
    then (if leap then 29 else 28)
    else if nat_beq m 4 || nat_beq m 6 || nat_beq m 9 || nat_beq m 11
    then 30
    else 31

-- The days of the year before the month.
unfoldable pub month_start : Bool → ℕ → ℕ
unfolding month_length
month_start leap zero = 0
month_start leap (suc zero) = 0
month_start leap (suc (suc m)) = month_start leap (suc m) + month_length leap (suc m)

-- The days before January 1st of the year, counted from a Monday long before year 0.
unfoldable pub year_start : ℕ → ℕ
year_start y = y * 365 + (y + 3) / 4 - (y + 99) / 100 + (y + 399) / 400 + 5

-- The greatest year of a `NaiveDate`.
abbrev pub max_year : ℕ
max_year = 262142

abbrev pub is_date : ℕ → ℕ → ℕ → Bool
is_date y m d =
    leb y max_year && leb 1 m && leb m 12 && leb 1 d && leb d (month_length (is_leap y) m)

abbrev pub weekday_of : NaiveDate → ℕ
weekday_of t = (year_start t.year + month_start (is_leap t.year) t.month + t.day - 1) % 7

-- chrono's dates are those of the Gregorian calendar.
pub record IsGregorian (c : Chrono) : Type 0 where
  pub dates :
      (y m d : ℕ) → c.from_ymd_opt y m d ≡ (if is_date y m d then some (ymd y m d) else none)
  pub weekdays : (t : NaiveDate) → c.weekday t ≡ weekday_of t
