-- ===== src/Prelude/Tests.antt =====
-- Boolean tests on the native numbers, the conditional, and equality tests as an interface (Rust's
-- `PartialEq`).
use Prim.Native.Nat.{ℕ, compare, Ordering}
use Prim.Native.String.{String}
use mathlib.Core.Path.{◌≡◌, refl, ap}
use mathlib.Core.Logic.{◌↔◌, ◌⊎◌, inl, inr}
use mathlib.Core.Bool.{Bool, true, false, ◌&&◌}
use mathlib.Core.Option.{Option, none, some}
use native.Mathlib.Omega.{arith}
use text.Mathlib.Text.{◌==◌ as str_eq}
use text.Mathlib.TextEquality.{eq_iff}

abbrev pub ltb : ℕ → ℕ → Bool
ltb a b = elim (compare a b) [ Ordering.lt ↦ true | _ ↦ false ]

abbrev pub leb : ℕ → ℕ → Bool
leb a b = elim (compare a b) [ Ordering.gt ↦ false | _ ↦ true ]

abbrev pub nat_beq : ℕ → ℕ → Bool
nat_beq a b = elim (compare a b) [ Ordering.eq ↦ true | _ ↦ false ]

infix 1 if◌then◌else◌
abbrev pub if◌then◌else◌ {ℓ} : {A : Type ℓ} → Bool → A → A → A
if true then x else y = x
if false then x else y = y

pub nat_beq_iff : (a b : ℕ) → (nat_beq a b ≡ true) ↔ (a ≡ b)
nat_beq_iff a b = ground arith

-- To split on a computed value and keep the equation.
pub Bool-cases : (b : Bool) → (b ≡ true) ⊎ (b ≡ false)
Bool-cases true = inl refl
Bool-cases false = inr refl

pub Option-cases {ℓ} : {A : Type ℓ} (o : Option A) → (o ≡ none) ⊎ ((a : A) × (o ≡ some a))
Option-cases none = inl refl
Option-cases (some a) = inr (a, refl)

abbrev pub is_some {ℓ} : {A : Type ℓ} → Option A → Bool
is_some none = false
is_some (some a) = true

abbrev pub is_none {ℓ} : {A : Type ℓ} → Option A → Bool
is_none none = true
is_none (some a) = false

abbrev pub unwrap_or {ℓ} : {A : Type ℓ} → A → Option A → A
unwrap_or d none = d
unwrap_or d (some a) = a

-- A test that decides whether two values are equal.
pub record PartialEq {ℓ} (A : Type ℓ) : Type ℓ where
  pub same : A → A → Bool
  pub same_exact : (x y : A) → (x ≡ y) ↔ (same x y ≡ true)

module _ {ℓ} {A : Type ℓ} ⦃p : PartialEq A⦄ where
  infix 50 ◌==◌
  abbrev pub ◌==◌ : A → A → Bool
  x == y = p.same x y

  pub same_self : (x : A) → (x == x) ≡ true
  same_self x = (p.same_exact x x).0 refl

  -- On two values that may be missing.
  abbrev pub option_same : Option A → Option A → Bool
  option_same (some x) (some y) = p.same x y
  option_same none none = true
  option_same _ _ = false

  pub option_same_exact : (x y : Option A) → option_same x y ≡ true → x ≡ y
  option_same_exact (some x) (some y) h = ap some ((p.same_exact x y).1 h)
  option_same_exact none none h = refl
  option_same_exact none (some y) h = cc
  option_same_exact (some x) none h = cc

instance abbrev pub nat_eq : PartialEq ℕ
nat_eq = record { same = nat_beq; same_exact = λ x y. ((nat_beq_iff x y).1, (nat_beq_iff x y).0) }

instance abbrev pub string_eq : PartialEq String
string_eq = record { same = str_eq; same_exact = λ x y. ((eq_iff x y).1, (eq_iff x y).0) }

module _ {ℓ} {A B : Type ℓ} ⦃p : PartialEq A⦄ ⦃q : PartialEq B⦄ where
  abbrev pub pair_same : A × B → A × B → Bool
  pair_same (a, b) (c, d) = p.same a c && q.same b d

  pub pair_same_exact : (x y : A × B) → (x ≡ y) ↔ (pair_same x y ≡ true)
  pair_same_exact (a, b) (c, d) = ground (arith, p.same_exact a c, q.same_exact b d)

  instance abbrev pub pair_eq : PartialEq (A × B)
  pair_eq = record { same = pair_same; same_exact = pair_same_exact }
