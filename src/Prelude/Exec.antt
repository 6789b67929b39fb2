-- ===== src/Prelude/Exec.antt =====
-- `async` functions that call the outside world and return a `Result`. An
-- action reads and extends the trace of the calls made so far, the newest call first; what the
-- outside answers may depend on everything that happened before.
use mathlib.Core.Path.{◌≡◌, refl}
use mathlib.Core.List.{List, ◌∷◌}
use mathlib.Core.Option.{Option, none, some}
use open_community_groups.Prelude.Result.{Result, ok, err, map_err as map_err_result}

abbrev pub Exec {ℓ} : Type ℓ → Type ℓ → Type ℓ → Type ℓ
Exec C E A = List C → Result E A × List C

module _ {ℓ} {C E A : Type ℓ} where
  abbrev pub pure : A → Exec C E A
  pure a s = (ok a, s)

  abbrev pub fail : E → Exec C E A
  fail e s = (err e, s)

  -- The call `c`, with the answer that the outside gives after the trace.
  abbrev pub call : C → (List C → Result E A) → Exec C E A
  call c answer s = (answer s, c ∷ s)

  -- `ok_or_else` and `?` on a value that is already there.
  abbrev pub or_fail : Option A → E → Exec C E A
  or_fail none e = fail e
  or_fail (some a) e = pure a

module _ {ℓ} {C E A B : Type ℓ} where
  abbrev pub continue : Result E A × List C → (A → Exec C E B) → Result E B × List C
  continue (ok a, s) f = f a s
  continue (err e, s) f = (err e, s)

  infixl 5 ◌>>=◌ ◌>>◌
  abbrev pub ◌>>=◌ : Exec C E A → (A → Exec C E B) → Exec C E B
  ◌>>=◌ m f s = continue (m s) f

  abbrev pub ◌>>◌ : Exec C E A → Exec C E B → Exec C E B
  m >> n = m >>= λ _. n

-- A bind whose first action is known to have succeeded, or to have failed.
module _ {ℓ} {C E A B : Type ℓ} (m : Exec C E A) (f : A → Exec C E B) (s : List C) where
  pub bind_ok : (a : A) → (m s).0 ≡ ok a → (m >>= f) s ≡ f a (m s).1
  bind_ok a e = rw (e, continue)

  pub bind_err : (e : E) → (m s).0 ≡ err e → (m >>= f) s ≡ (err e, (m s).1)
  bind_err e k = rw (k, continue)

-- An action that succeeded had its first part succeed.
pub continue_inv {ℓ} :
    {C E A B : Type ℓ} (x : Result E A × List C) (f : A → Exec C E B) (b : B)
    → (continue x f).0 ≡ ok b
    → (a : A) × (x.0 ≡ ok a) × (continue x f ≡ f a x.1)
continue_inv (ok a, s) f b e = (a, refl, refl)
continue_inv (err k, s) f b e = cc

-- `match action.await { Ok(a) => f(a), Err(e) => h(e) }`
abbrev pub handle {ℓ} :
    {C E A B : Type ℓ} → Result E A × List C → (A → List C → B) → (E → List C → B) → B
handle (ok a, s) f h = f a s
handle (err e, s) f h = h e s

-- A property of a `handle` from its two branches.
pub handle_cases {ℓ κ} :
    {C E A B : Type ℓ} (P : B → Type κ) (x : Result E A × List C) (f : A → List C → B)
    (h : E → List C → B)
    → ((a : A) → x.0 ≡ ok a → P (f a x.1))
    → ((e : E) → x.0 ≡ err e → P (h e x.1))
    → P (handle x f h)
handle_cases P (ok a, s) f h on_ok on_err = on_ok a refl
handle_cases P (err e, s) f h on_ok on_err = on_err e refl

-- `map_err`
abbrev pub map_err {ℓ} : {C E F A : Type ℓ} → (E → F) → Exec C E A → Exec C F A
map_err f m s = let (r, s') = m s in (map_err_result f r, s')
