-- ===== src/Prelude/Lists.antt =====
-- Lists measured by native numbers, and predicates on their elements.
use Prim.Native.Nat.{ℕ, zero, suc, ◌+◌}
use mathlib.Core.Path.{◌≡◌, refl}
use mathlib.Core.Logic.{◌↔◌}
use mathlib.Core.Bool.{Bool, true, false, ◌&&◌, ◌||◌}
use mathlib.Core.List.{List, [], ◌∷◌, ◌++◌}
use mathlib.Core.Option.{Option, none, some}
use native.Mathlib.Omega.{arith}
use open_community_groups.Prelude.Tests.{if◌then◌else◌, PartialEq}

module _ {ℓ} {A : Type ℓ} where
  abbrev pub length : List A → ℕ
  length [] = 0
  length (x ∷ xs) = suc (length xs)

  abbrev pub is_empty : List A → Bool
  is_empty [] = true
  is_empty (x ∷ xs) = false

  pub length-append : (xs ys : List A) → length (xs ++ ys) ≡ length xs + length ys
  length-append [] ys = omega arith
  length-append (x ∷ xs) ys = omega (arith, length-append xs ys)

  -- All but the first `n` elements.
  abbrev pub drop : (n : ℕ) (l : List A) → List A
  drop zero l = l
  drop (suc n) [] = []
  drop (suc n) (a ∷ l) = drop n l

  -- `iter().any(test)` and `iter().find(test)`
  abbrev pub any : (A → Bool) → List A → Bool
  any test [] = false
  any test (x ∷ xs) = test x || any test xs

  abbrev pub find : (A → Bool) → List A → Option A
  find test [] = none
  find test (x ∷ xs) = if test x then some x else find test xs

  -- How many elements pass the test.
  abbrev pub count : (A → Bool) → List A → ℕ
  count test [] = 0
  count test (x ∷ xs) = let rest = count test xs in if test x then suc rest else rest

  pub count-append :
      (test : A → Bool) (xs ys : List A) → count test (xs ++ ys) ≡ count test xs + count test ys
  count-append test [] ys = omega arith
  count-append test (x ∷ xs) ys = ground (arith, count-append test xs ys)

-- Every element of the list has the property.
abbrev pub All {ℓ κ} : {A : Type ℓ} (P : A → Type κ) (l : List A) → Type κ
All P [] = Unit
All P (a ∷ l) = P a × All P l

module _ {ℓ} {A : Type ℓ} ⦃p : PartialEq A⦄ where
  -- `contains`
  abbrev pub contains : List A → A → Bool
  contains [] x = false
  contains (y ∷ ys) x = p.same y x || contains ys x

  -- `==` on lists
  unfoldable pub list_same : List A → List A → Bool
  list_same [] [] = true
  list_same (x ∷ xs) (y ∷ ys) = p.same x y && list_same xs ys
  list_same [] (y ∷ ys) = false
  list_same (x ∷ xs) [] = false

  pub list_same_exact : (xs ys : List A) → (xs ≡ ys) ↔ (list_same xs ys ≡ true)
  unfolding list_same
  list_same_exact [] [] = (λ e. refl, λ e. refl)
  list_same_exact [] (y ∷ ys) = (λ e. cc, λ e. cc)
  list_same_exact (x ∷ xs) [] = (λ e. cc, λ e. cc)
  list_same_exact (x ∷ xs) (y ∷ ys) = ground (arith, p.same_exact x y, list_same_exact xs ys)

  instance abbrev pub list_eq : PartialEq (List A)
  list_eq = record { same = list_same; same_exact = list_same_exact }
