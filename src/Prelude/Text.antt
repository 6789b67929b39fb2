-- ===== src/Prelude/Text.antt =====
-- Decimal text of numbers, as `Display` writes it and `str::parse` reads it, and texts as lists of
-- character codes.
pub mod Numbers
pub mod Slices
use Prim.Native.String.{String, ◌++◌}
use open_community_groups.Prelude.Tests.{if◌then◌else◌, nat_beq, ltb, leb}
use Prim.Native.Nat.{ℕ, zero, suc, ◌+◌, ◌-◌, ◌*◌, ◌/◌, ◌%◌, ◌^◌}
use Prim.Native.Char.{code}
use mathlib.Core.Bool.{Bool, true, false, ◌&&◌}
use mathlib.Core.List.{List, [], ◌∷◌}
use open_community_groups.Prelude.Result.{Result, ok, err}

digit : ℕ → String
digit n =
    if nat_beq n 0
    then "0"
    else if nat_beq n 1
    then "1"
    else if nat_beq n 2
    then "2"
    else if nat_beq n 3
    then "3"
    else if nat_beq n 4
    then "4"
    else if nat_beq n 5
    then "5"
    else if nat_beq n 6
    then "6"
    else if nat_beq n 7
    then "7"
    else if nat_beq n 8
    then "8"
    else "9"

digits : ℕ → ℕ → String
digits zero n = ""
digits (suc fuel) n =
    let rest = digits fuel (n / 10) in if ltb n 10 then digit n else rest ++ digit (n % 10)

-- A 64-bit number has at most 20 digits.
unfoldable pub display : ℕ → String
unfolding digits digit
display n = digits 20 n

-- An `i64` is its 64 bits as a number, an `i32` its 32 bits.
pub display_signed : ℕ → ℕ → String
display_signed width n =
    if ltb n (2 ^ (width - 1)) then display n else "-" ++ display (2 ^ width - n)

abbrev pub Text : Type 0
Text = List ℕ

abbrev pub codes : String → Text
codes String.[] = []
codes (String.◌∷◌ c s) = code c ∷ codes s

unfoldable pub lower : ℕ → ℕ
lower c = if leb b'A' c && leb c b'Z' then c + 32 else c

-- `str::eq_ignore_ascii_case`
unfoldable pub eq_ignore_ascii_case : Text → Text → Bool
unfolding lower
eq_ignore_ascii_case [] [] = true
eq_ignore_ascii_case (c ∷ s) (d ∷ t) = nat_beq (lower c) (lower d) && eq_ignore_ascii_case s t
eq_ignore_ascii_case _ _ = false

is_digit : ℕ → Bool
is_digit c = leb b'0' c && leb c b'9'

-- The number that the digits write, up to a greatest one, after those that were read. A number that
-- has become too great is an error before the next digit is looked at.
parse_digits : ℕ → String → ℕ → Text → Result String ℕ
unfolding is_digit
parse_digits greatest overflow n [] = ok n
parse_digits greatest overflow n (c ∷ s) =
    let value = n * 10 + (c - b'0') in
    let rest = parse_digits greatest overflow value s in
    if is_digit c
    then (if leb value greatest then rest else err overflow)
    else err "invalid digit found in string"

parse_some : ℕ → String → Text → Result String ℕ
unfolding parse_digits
parse_some greatest overflow [] = err "invalid digit found in string"
parse_some greatest overflow (c ∷ s) = parse_digits greatest overflow 0 (c ∷ s)

too_large : String
too_large = "number too large to fit in target type"

too_small : String
too_small = "number too small to fit in target type"

-- `str::parse::<u64>`
unfoldable pub parse_u64 : Text → Result String ℕ
unfolding parse_some parse_digits too_large
parse_u64 [] = err "cannot parse integer from empty string"
parse_u64 (c ∷ s) =
    if nat_beq c b'+'
    then parse_some (2 ^ 64 - 1) too_large s
    else parse_digits (2 ^ 64 - 1) too_large 0 (c ∷ s)

negative : Result String ℕ → Result String ℕ
negative (ok n) = ok ((2 ^ 64 - n) % 2 ^ 64)
negative (err e) = err e

-- `str::parse::<i64>`
unfoldable pub parse_i64 : Text → Result String ℕ
unfolding parse_some parse_digits too_large too_small negative
parse_i64 [] = err "cannot parse integer from empty string"
parse_i64 (c ∷ s) =
    if nat_beq c b'-'
    then negative (parse_some (2 ^ 63) too_small s)
    else if nat_beq c b'+'
    then parse_some (2 ^ 63 - 1) too_large s
    else parse_digits (2 ^ 63 - 1) too_large 0 (c ∷ s)
