-- ===== src/Pagination/Url.antt =====
-- `build_url` and the separator it puts before the filters' query.
use open_community_groups.Prelude.{
  ℕ, ◌≡◌, refl, Bool, false, ◌||◌, List, [], ◌∷◌, ◌++◌, arith, ◌==◌, nat_eq, if◌then◌else◌,
  is_empty, contains, Bool-cases, ap, inl, inr, String, Option, none, some, ◌≢◌,
}
use open_community_groups.Prelude.Result.{Result, ok, err}

-- `str::ends_with` one character
abbrev pub ends_with : List ℕ → ℕ → Bool
ends_with [] c = false
ends_with (d ∷ []) c = d == c
ends_with (d ∷ e ∷ s) c = ends_with (e ∷ s) c

pub get_url_filters_separator : List ℕ → List ℕ
get_url_filters_separator url =
    if contains url b'?'
    then if ends_with url b'?' || ends_with url b'&' then [] else b'&' ∷ []
    else b'?' ∷ []

-- The query text of the filters is `to_raw_query`, which may fail.
unfoldable pub build_url : List ℕ → Result String (List ℕ) → Result String (List ℕ)
unfolding get_url_filters_separator
build_url base_url (err e) = err e
build_url base_url (ok filters_params) =
    if is_empty filters_params
    then ok base_url
    else ok (base_url ++ (get_url_filters_separator base_url ++ filters_params))

-- A URL as a reader of it sees it: what stands before the first question mark, and the query.
pub record Parts : Type 0 where
  pub path : List ℕ
  pub query : Option (List ℕ)

pub split : List ℕ → Parts
split [] = record { path = []; query = none }
split (c ∷ s) =
    let rest = split s in
    if c == b'?'
    then record { path = []; query = some s }
    else record { path = c ∷ rest.path; query = rest.query }

-- A query with more parameters put behind it.
abbrev pub join : Option (List ℕ) → List ℕ → List ℕ
join none params = params
join (some []) params = params
join (some (c ∷ q)) params =
    if ends_with (c ∷ q) b'?' || ends_with (c ∷ q) b'&'
    then (c ∷ q) ++ params
    else (c ∷ q) ++ (b'&' ∷ params)

with_separator : List ℕ → List ℕ → List ℕ
unfolding get_url_filters_separator
with_separator base params = base ++ (get_url_filters_separator base ++ params)

split-with_separator :
    (base params : List ℕ)
    → split (with_separator base params)
      ≡ record { path = (split base).path; query = some (join (split base).query params) }
unfolding split with_separator
split-with_separator [] params = refl
split-with_separator (c ∷ []) params = ground arith
split-with_separator (c ∷ d ∷ s) params =
    let ih = split-with_separator (d ∷ s) params in
    elim (Bool-cases (c == b'?')) [
      | inl e ↦ elim (Bool-cases (ends_with (d ∷ s) b'?' || ends_with (d ∷ s) b'&')) [
        | inl f ↦ rw (e, f)
        | inr f ↦ rw (e, f)
      ]
      | inr e ↦ rw e (ap (λ (p : Parts). record p { path = c ∷ p.path }) ih)
    ]

-- A built URL has the path of its base, and the query of its base with the parameters behind it.
pub build_url-query :
    (base params : List ℕ) (url : List ℕ)
    → params ≢ []
    → build_url base (ok params) ≡ ok url
    → ((split url).path ≡ (split base).path)
      × ((split url).query ≡ some (join (split base).query params))
unfolding build_url with_separator
build_url-query base [] url ne e = absurd (ne refl)
build_url-query base (c ∷ ps) url ne e = ground (arith, split-with_separator base (c ∷ ps))
