-- ===== src/Prelude/Text/Numbers.antt =====
-- What `Display` writes of a number, `str::parse` reads.
use Prim.Native.Nat.{ℕ, zero, suc, ◌+◌, ◌-◌, ◌*◌, ◌/◌, ◌%◌, ◌^◌, ◌≤◌, ◌<◌}
use Prim.Native.Char.{code}
use Prim.Native.String.{String, ◌++◌ as ◌++ˢ◌}
use text.Mathlib.TextLemmas.{nil-append, cons-append}
use mathlib.Core.Path.{◌≡◌, refl, ap, sym, ◌∙◌}
use mathlib.Core.Logic.{inl, inr}
use mathlib.Core.Bool.{true, false}
use mathlib.Core.List.{[], ◌∷◌, ◌++◌, append_assoc, append-nil}
use native.Mathlib.Omega.{arith}
use open_community_groups.Prelude.Tests.{ltb, Bool-cases}
use open_community_groups.Prelude.Result.{ok}
use open_community_groups.Prelude.Text.{
  Text, codes, digit, digits, display, display_signed, is_digit, parse_digits, parse_some,
  parse_i64, negative, too_large, too_small,
}

codes-append : (a b : String) → codes (a ++ˢ b) ≡ codes a ++ codes b
codes-append String.[] b = ap codes (nil-append b)
codes-append (String.◌∷◌ c a) b =
    ap codes (cons-append c a b) ∙ ap (λ s. code c ∷ s) (codes-append a b)

codes-digit : (n : ℕ) → n < 10 → codes (digit n) ≡ (b'0' + n) ∷ []
unfolding digit
codes-digit zero h = refl
codes-digit (suc zero) h = refl
codes-digit (suc (suc zero)) h = refl
codes-digit (suc (suc (suc zero))) h = refl
codes-digit (suc (suc (suc (suc zero)))) h = refl
codes-digit (suc (suc (suc (suc (suc zero))))) h = refl
codes-digit (suc (suc (suc (suc (suc (suc zero)))))) h = refl
codes-digit (suc (suc (suc (suc (suc (suc (suc zero))))))) h = refl
codes-digit (suc (suc (suc (suc (suc (suc (suc (suc zero)))))))) h = refl
codes-digit (suc (suc (suc (suc (suc (suc (suc (suc (suc zero))))))))) h = refl
codes-digit (suc (suc (suc (suc (suc (suc (suc (suc (suc (suc n)))))))))) h = absurd (omega arith)

-- A digit that leaves the number small enough is read.
parse_digits-step :
    (greatest : ℕ) (overflow : String) (n d k : ℕ) (s : Text)
    → d < 10
    → n * 10 + d ≡ k
    → k ≤ greatest
    → parse_digits greatest overflow n ((b'0' + d) ∷ s) ≡ parse_digits greatest overflow k s
unfolding parse_digits is_digit
parse_digits-step greatest overflow n d k s h e small = ground arith

-- The digits of a number of two digits or more.
codes-digits :
    (fuel n : ℕ)
    → ltb n 10 ≡ false
    → codes (digits (suc fuel) n) ≡ codes (digits fuel (n / 10)) ++ ((b'0' + n % 10) ∷ [])
unfolding digits
codes-digits fuel n e =
    ap codes (ground (arith, e))
    ∙ codes-append (digits fuel (n / 10)) (digit (n % 10))
    ∙ ap (λ s. codes (digits fuel (n / 10)) ++ s) (codes-digit (n % 10) (omega arith))

codes-one : (fuel n : ℕ) → ltb n 10 ≡ true → codes (digits (suc fuel) n) ≡ (b'0' + n) ∷ []
unfolding digits
codes-one fuel n e = ap codes (ground (arith, e)) ∙ codes-digit n (ground (arith, e))

parse_digits-digits :
    (fuel greatest : ℕ) (overflow : String) (n : ℕ) (s : Text)
    → n < 10 ^ suc fuel
    → n ≤ greatest
    → parse_digits greatest overflow 0 (codes (digits (suc fuel) n) ++ s)
      ≡ parse_digits greatest overflow n s
parse_digits-digits zero greatest overflow n s bound small =
    ap (λ t. parse_digits greatest overflow 0 (t ++ s)) (codes-one 0 n (ground arith))
    ∙ parse_digits-step greatest overflow 0 n n s (ground arith) (omega arith) small
parse_digits-digits (suc fuel) greatest overflow n s bound small = elim (Bool-cases (ltb n 10)) [
  | inl e ↦
      ap (λ t. parse_digits greatest overflow 0 (t ++ s)) (codes-one (suc fuel) n e)
      ∙ parse_digits-step greatest overflow 0 n n s (ground (arith, e)) (omega arith) small
  | inr e ↦
      ap (λ t. parse_digits greatest overflow 0 (t ++ s)) (codes-digits (suc fuel) n e)
      ∙ ap (parse_digits greatest overflow 0)
          (append_assoc (codes (digits (suc fuel) (n / 10))) ((b'0' + n % 10) ∷ []) s)
      ∙ parse_digits-digits fuel greatest overflow (n / 10) ((b'0' + n % 10) ∷ s) (omega arith)
          (omega arith)
      ∙ parse_digits-step greatest overflow (n / 10) (n % 10) n s (omega arith) (omega arith) small
]

-- The first character is a digit.
digits-first :
    (fuel n : ℕ) → (d : ℕ) × (s : Text) × (codes (digits (suc fuel) n) ≡ (b'0' + d) ∷ s) × (d < 10)
unfolding digits
digits-first zero n = elim (Bool-cases (ltb n 10)) [
  | inl e ↦ (n, [], codes-one 0 n e, ground (arith, e))
  | inr e ↦ (n % 10, [], codes-digits 0 n e, omega arith)
]
digits-first (suc fuel) n = elim (Bool-cases (ltb n 10)) [
  | inl e ↦ (n, [], codes-one (suc fuel) n e, ground (arith, e))
  | inr e ↦
      let (d, s, first, bound) = digits-first fuel (n / 10) in
      (
        d,
        s ++ ((b'0' + n % 10) ∷ []),
        codes-digits (suc fuel) n e ∙ ap (λ t. t ++ ((b'0' + n % 10) ∷ [])) first,
        bound,
      )
]

parse_digits-display :
    (greatest : ℕ) (overflow : String) (n : ℕ)
    → n < 2 ^ 64
    → n ≤ greatest
    → parse_digits greatest overflow 0 (codes (display n)) ≡ ok n
unfolding display parse_digits
parse_digits-display greatest overflow n h small =
    ap (parse_digits greatest overflow 0) (sym (append-nil (codes (digits 20 n))))
    ∙ parse_digits-digits 19 greatest overflow n [] (omega arith) small

parse_some-display :
    (greatest : ℕ) (overflow : String) (n : ℕ)
    → n < 2 ^ 64
    → n ≤ greatest
    → parse_some greatest overflow (codes (display n)) ≡ ok n
unfolding display parse_some
parse_some-display greatest overflow n h small =
    let (d, s, first, bound) = digits-first 19 n in
    ap (parse_some greatest overflow) first
    ∙ ap (parse_digits greatest overflow 0) (sym first)
    ∙ parse_digits-display greatest overflow n h small

-- A text that begins with a digit has no sign.
parse_i64-digit :
    (d : ℕ) (t s : Text)
    → d < 10
    → t ≡ (b'0' + d) ∷ s
    → parse_i64 t ≡ parse_digits (2 ^ 63 - 1) too_large 0 t
unfolding parse_i64
parse_i64-digit d t s h e =
    ap parse_i64 e ∙ (ground arith) ∙ ap (parse_digits (2 ^ 63 - 1) too_large 0) (sym e)

read-positive : (n : ℕ) → ltb n (2 ^ 63) ≡ true → parse_i64 (codes (display_signed 64 n)) ≡ ok n
unfolding display_signed display
read-positive n e =
    let (d, s, first, bound) = digits-first 19 n in
    ap (λ t. parse_i64 (codes t)) (ground (arith, e))
    ∙ parse_i64-digit d (codes (display n)) s bound first
    ∙ parse_digits-display (2 ^ 63 - 1) too_large n (ground (arith, e)) (ground (arith, e))

read-negative :
    (n : ℕ) → n < 2 ^ 64 → ltb n (2 ^ 63) ≡ false → parse_i64 (codes (display_signed 64 n)) ≡ ok n
unfolding display_signed parse_i64 negative
read-negative n h e =
    let shape : display_signed 64 n ≡ "-" ++ˢ display (2 ^ 64 - n) = ground (arith, e) in
    ap (λ t. parse_i64 (codes t)) shape
    ∙ ap parse_i64 (codes-append "-" (display (2 ^ 64 - n)))
    ∙ ap negative
        (parse_some-display (2 ^ 63) too_small (2 ^ 64 - n) (ground (arith, e)) (ground (arith, e)))
    ∙ ap ok (ground (arith, e))

-- An `i64` as text is read as the same `i64`.
pub parse_i64-display_signed : (n : ℕ) → n < 2 ^ 64 → parse_i64 (codes (display_signed 64 n)) ≡ ok n
parse_i64-display_signed n h = elim (Bool-cases (ltb n (2 ^ 63))) [
  | inl e ↦ read-positive n e
  | inr e ↦ read-negative n h e
]
