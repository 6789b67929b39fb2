-- ===== src/Redirector/Maps.antt =====
-- `HashMap`s whose keys are texts, as lists of entries with distinct keys.
use open_community_groups.Prelude.{
  ◌≡◌, refl, Option, none, some, List, [], ◌∷◌, if◌then◌else◌, nat_eq, list_eq, arith, list_same,
  list_same_exact,
}
use open_community_groups.Prelude.Text.{Text}

abbrev pub HashMap : Type 0 → Type 0
HashMap V = List (Text × V)

module _ {V : Type 0} where
  unfoldable pub get : Text → HashMap V → Option V
  get k [] = none
  get k ((j, v) ∷ m) = let rest = get k m in if list_same j k then some v else rest

  unfoldable pub insert : Text → V → HashMap V → HashMap V
  insert k v [] = (k, v) ∷ []
  insert k v ((j, u) ∷ m) =
      let rest = (j, u) ∷ insert k v m in if list_same j k then (j, v) ∷ m else rest

  pub get-insert :
      (j k : Text) (v : V) (m : HashMap V)
      → get k (insert j v m) ≡ (if list_same j k then some v else get k m)
  unfolding get insert
  get-insert j k v [] = refl
  get-insert j k v ((i, u) ∷ m) =
      ground
        (arith, get-insert j k v m, list_same_exact i j, list_same_exact j k, list_same_exact i k)
