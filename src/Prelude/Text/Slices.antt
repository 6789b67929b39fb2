-- ===== src/Prelude/Text/Slices.antt =====
-- The methods of `str` that cut a text, on its characters.
use open_community_groups.Prelude.Text.{Text, lower}
use Prim.Native.Nat.{ℕ}
use mathlib.Core.Path.{◌≡◌, refl, ap, ◌∙◌}
use mathlib.Core.Logic.{◌↔◌, inl, inr}
use mathlib.Core.Bool.{Bool, false, ◌&&◌, ◌||◌}
use mathlib.Core.List.{[], ◌∷◌, ◌++◌, map}
use mathlib.Core.Option.{Option, none, some}
use native.Mathlib.Omega.{arith}
use open_community_groups.Prelude.Tests.{
  if◌then◌else◌, nat_beq, leb, ◌==◌, nat_eq, Bool-cases, Option-cases,
}
use open_community_groups.Prelude.Lists.{
  length, is_empty, list_same, list_same_exact, list_eq, length-append, any,
}

-- `char::is_whitespace`
abbrev pub is_whitespace : ℕ → Bool
is_whitespace c =
    leb 9 c && leb c 13
    || nat_beq c 32
    || nat_beq c 133
    || nat_beq c 160
    || nat_beq c 5760
    || leb 8192 c && leb c 8202
    || nat_beq c 8232
    || nat_beq c 8233
    || nat_beq c 8239
    || nat_beq c 8287
    || nat_beq c 12288

unfoldable pub trim_start_matches : (ℕ → Bool) → Text → Text
trim_start_matches test [] = []
trim_start_matches test (c ∷ s) = if test c then trim_start_matches test s else c ∷ s

unfoldable pub trim_end_matches : (ℕ → Bool) → Text → Text
trim_end_matches test [] = []
trim_end_matches test (c ∷ s) =
    let rest = trim_end_matches test s in if is_empty rest && test c then [] else c ∷ rest

unfoldable pub trim : Text → Text
unfolding trim_start_matches trim_end_matches
trim s = trim_end_matches is_whitespace (trim_start_matches is_whitespace s)

unfoldable pub to_ascii_lowercase : Text → Text
unfolding lower
to_ascii_lowercase s = map lower s

-- `rsplit_once`: what stands before and after the last such character.
after_first : ℕ → ℕ → Text → Option (Text × Text) → Option (Text × Text)
after_first d c s (some (before, after)) = some (c ∷ before, after)
after_first d c s none = if nat_beq c d then some ([], s) else none

unfoldable pub rsplit_once : ℕ → Text → Option (Text × Text)
unfolding after_first
rsplit_once d [] = none
rsplit_once d (c ∷ s) = after_first d c s (rsplit_once d s)

abbrev pub prefixed : ℕ → Option Text → Option Text
prefixed c none = none
prefixed c (some s) = some (c ∷ s)

-- `strip_suffix`
unfoldable pub strip_suffix : Text → Text → Option Text
strip_suffix suffix [] = if is_empty suffix then some [] else none
strip_suffix suffix (c ∷ s) =
    let rest = prefixed c (strip_suffix suffix s) in if c ∷ s == suffix then some [] else rest

-- A longer text is another one.
longer : (c : ℕ) (r suffix : Text) → list_same (c ∷ (r ++ suffix)) suffix ≡ false
longer c r suffix = elim (Bool-cases (list_same (c ∷ (r ++ suffix)) suffix)) [
  | inl e ↦ absurd (
      omega (
        arith,
        ap length ((list_same_exact (c ∷ (r ++ suffix)) suffix).1 e),
        length-append r suffix,
      ))
  | inr e ↦ e
]

strip_suffix-append : (suffix r : Text) → strip_suffix suffix (r ++ suffix) ≡ some r
unfolding strip_suffix
strip_suffix-append [] [] = refl
strip_suffix-append (c ∷ suffix) [] = ground (arith, list_same_exact (c ∷ suffix) (c ∷ suffix))
strip_suffix-append suffix (c ∷ r) = ground (arith, longer c r suffix, strip_suffix-append suffix r)

suffix_of : (suffix s r : Text) → strip_suffix suffix s ≡ some r → s ≡ r ++ suffix
unfolding strip_suffix
suffix_of [] [] r e = ground (arith, e)
suffix_of (d ∷ suffix) [] r e = cc
suffix_of suffix (c ∷ s) r e = elim (Bool-cases (list_same (c ∷ s) suffix)) [
  | inl same ↦ ground (arith, e, same, list_same_exact (c ∷ s) suffix)
  | inr other ↦ elim (Option-cases (strip_suffix suffix s)) [
    | inl nothing ↦ absurd (ground (arith, e, other, nothing))
    | inr (u, found) ↦ ground (arith, e, other, found, suffix_of suffix s u found)
  ]
]

-- A suffix is stripped exactly if the text ends with it.
pub strip_suffix_iff : (suffix s r : Text) → (strip_suffix suffix s ≡ some r) ↔ (s ≡ r ++ suffix)
strip_suffix_iff suffix s r =
    (suffix_of suffix s r, λ e. ap (strip_suffix suffix) e ∙ strip_suffix-append suffix r)

-- No character of the text passes the test.
abbrev pub NoneOf : (ℕ → Bool) → Text → Type 0
NoneOf test [] = Unit
NoneOf test (c ∷ s) = (test c ≡ false) × NoneOf test s

pub any-NoneOf : (test : ℕ → Bool) (s : Text) → any test s ≡ false → NoneOf test s
any-NoneOf test [] e = tt
any-NoneOf test (c ∷ s) e = (ground (arith, e), any-NoneOf test s (ground (arith, e)))

pub NoneOf-append :
    (test : ℕ → Bool) (s t : Text) → NoneOf test s → NoneOf test t → NoneOf test (s ++ t)
NoneOf-append test [] t p q = q
NoneOf-append test (c ∷ s) t (p, r) q = (p, NoneOf-append test s t r q)

module _ (test : ℕ → Bool) where
  trim_start-NoneOf : (s : Text) → NoneOf test s → trim_start_matches test s ≡ s
  unfolding trim_start_matches
  trim_start-NoneOf [] p = refl
  trim_start-NoneOf (c ∷ s) (p, q) = ground (arith, p)

  trim_end-NoneOf : (s : Text) → NoneOf test s → trim_end_matches test s ≡ s
  unfolding trim_end_matches
  trim_end-NoneOf [] p = refl
  trim_end-NoneOf (c ∷ s) (p, q) = ground (arith, p, trim_end-NoneOf s q)

-- A text without white space is not trimmed.
pub trim-NoneOf : (s : Text) → NoneOf is_whitespace s → trim s ≡ s
unfolding trim
trim-NoneOf s p =
    ap (trim_end_matches is_whitespace) (trim_start-NoneOf is_whitespace s p)
    ∙ trim_end-NoneOf is_whitespace s p

module _ (d : ℕ) where
  pub rsplit_once-none : (s : Text) → NoneOf (λ c. nat_beq c d) s → rsplit_once d s ≡ none
  unfolding rsplit_once
  rsplit_once-none [] p = refl
  rsplit_once-none (c ∷ s) (p, q) = ground (arith, p, rsplit_once-none s q)

  pub rsplit_once-append :
      (s t : Text) → NoneOf (λ c. nat_beq c d) t → rsplit_once d (s ++ d ∷ t) ≡ some (s, t)
  unfolding rsplit_once
  rsplit_once-append [] t p = ground (arith, rsplit_once-none t p)
  rsplit_once-append (c ∷ s) t p = ground (arith, rsplit_once-append s t p)
