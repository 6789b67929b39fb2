-- ===== src/Prelude/Stateful.antt =====
-- Methods that read and change the state behind `&self` and return a `Result`.
use open_community_groups.Prelude.Result.{Result, ok, err, map_err as map_err_result}

abbrev pub Stateful {ℓ} : Type ℓ → Type ℓ → Type ℓ → Type ℓ
Stateful S E A = S → Result E A × S

module _ {ℓ} {S E A : Type ℓ} where
  abbrev pub pure : A → Stateful S E A
  pure a s = (ok a, s)

  abbrev pub fail : E → Stateful S E A
  fail e s = (err e, s)

  -- A result that is already there.
  abbrev pub lift : Result E A → Stateful S E A
  lift r s = (r, s)

module _ {ℓ} {S E A B : Type ℓ} where
  abbrev pub continue : Result E A × S → (A → Stateful S E B) → Result E B × S
  continue (ok a, s) f = f a s
  continue (err e, s) f = (err e, s)

  infixl 5 ◌>>=◌ ◌>>◌
  abbrev pub ◌>>=◌ : Stateful S E A → (A → Stateful S E B) → Stateful S E B
  ◌>>=◌ m f s = continue (m s) f

  abbrev pub ◌>>◌ : Stateful S E A → Stateful S E B → Stateful S E B
  m >> n = m >>= λ _. n

-- `map_err`
abbrev pub map_err {ℓ} : {S E F A : Type ℓ} → (E → F) → Stateful S E A → Stateful S F A
map_err f m s = let (r, s') = m s in (map_err_result f r, s')

-- A property of the state that a method keeps.
abbrev pub Keeps {ℓ κ} : {S E A : Type ℓ} → (S → Type κ) → Stateful S E A → Type (ℓ ⊔ κ)
Keeps {S = S} I m = (s : S) → I s → I (m s).1

module _ {ℓ κ} {S E A : Type ℓ} (I : S → Type κ) where
  continue-Keeps :
      {B : Type ℓ} (x : Result E A × S) (f : A → Stateful S E B)
      → ((a : A) → Keeps I (f a))
      → I x.1
      → I (continue x f).1
  continue-Keeps (ok a, s) f k h = k a s h
  continue-Keeps (err e, s) f k h = h

  -- Two methods in a row keep what each of them keeps.
  pub bind-Keeps :
      {B : Type ℓ} (m : Stateful S E A) (f : A → Stateful S E B)
      → Keeps I m
      → ((a : A) → Keeps I (f a))
      → Keeps I (m >>= f)
  bind-Keeps m f k l s h = continue-Keeps (m s) f l (k s h)

  pub map_err-Keeps :
      {F : Type ℓ} (f : E → F) (m : Stateful S E A) → Keeps I m → Keeps I (map_err f m)
  map_err-Keeps f m k s h = k s h
