-- ===== src/Redirector/Tables/Build.antt =====
-- The map that is built of the rows answers as they say.
use open_community_groups.Prelude.{
  ◌≡◌, refl, sym, ap, ◌∙◌, nat_eq, list_eq, list_same_exact, arith, Option, none, some, List, [],
  ◌∷◌, if◌then◌else◌, any, Option-cases, Bool-cases, inl, inr, unwrap_or,
}
use open_community_groups.Prelude.Text.{Text}
use open_community_groups.Redirector.Maps.{get, get-insert}
use open_community_groups.Redirector.Config.{Uri}
use open_community_groups.Redirector.Router.{
  CommunityRedirects, Redirects, permanent, State, redirect_to, redirect_target,
  normalize_legacy_path,
}
use open_community_groups.Redirector.Tables.{
  RedirectRow, CommunityRow, no_redirects, seed, with_path, attach,
}
use open_community_groups.Redirector.Tables.Rows.{
  Tables, first_some, last_match, legacy_url_in, is_of, new_path_in, target_in, answer_for,
  answer_in,
}

-- The map that the rows are put into.
unfoldable pub put_all :
    {Row : Type 0} → (Row → Redirects → Redirects) → List Row → Redirects → Redirects
put_all f [] redirects = redirects
put_all f (row ∷ rows) redirects = put_all f rows (f row redirects)

unfoldable pub built : Tables → Redirects
unfolding put_all
built (communities, redirects) = put_all attach redirects (put_all seed communities [])

-- The rows of a community, put into its redirects.
add_all : Text → List RedirectRow → CommunityRedirects → CommunityRedirects
unfolding with_path
add_all name [] community = community
add_all name (row ∷ rows) community =
    add_all name rows (if is_of name row then with_path row community else community)

get-put_all-seed :
    (name : Text) (rows : List CommunityRow) (m : Redirects)
    → get name (put_all seed rows m) ≡ elim (last_match (legacy_url_in name) rows) [
      | some url ↦ some (record { base_legacy_url = url; redirects = [] })
      | none ↦ get name m
    ]
unfolding put_all seed
get-put_all-seed name [] m = refl
get-put_all-seed name ((k, url) ∷ rows) m = ground (
  arith,
  get-put_all-seed name rows (seed (k, url) m),
  get-insert k name (record { base_legacy_url = url; redirects = [] }) m,
)

get-attach :
    (name : Text) (row : RedirectRow) (m : Redirects)
    → get name (attach row m) ≡ (
        if is_of name row
        then some (with_path row (unwrap_or no_redirects (get name m)))
        else get name m)
unfolding attach
get-attach name row m = ground (
  arith,
  get-insert row.community_name name
      (with_path row (unwrap_or no_redirects (get row.community_name m))) m,
  list_same_exact row.community_name name,
)

get-put_all-some :
    (name : Text) (rows : List RedirectRow) (m : Redirects) (community : CommunityRedirects)
    → get name m ≡ some community
    → get name (put_all attach rows m) ≡ some (add_all name rows community)
unfolding put_all add_all
get-put_all-some name [] m community e = e
get-put_all-some name (row ∷ rows) m community e =
    get-put_all-some name rows (attach row m) _ (ground (arith, e, get-attach name row m))

get-put_all-none :
    (name : Text) (rows : List RedirectRow) (m : Redirects)
    → get name m ≡ none
    → get name (put_all attach rows m)
      ≡ (if any (is_of name) rows then some (add_all name rows no_redirects) else none)
unfolding put_all add_all
get-put_all-none name [] m e = e
get-put_all-none name (row ∷ rows) m e = elim (Bool-cases (is_of name row)) [
  | inl this ↦ ground (
    arith,
    this,
    get-put_all-some name rows (attach row m) (with_path row no_redirects)
        (ground (arith, this, e, get-attach name row m)),
  )
  | inr other ↦ ground (
    arith,
    other,
    get-put_all-none name rows (attach row m) (ground (arith, other, e, get-attach name row m)),
  )
]

get-add_all :
    (name path : Text) (rows : List RedirectRow) (community : CommunityRedirects)
    → get path (add_all name rows community).redirects
      ≡ first_some (last_match (new_path_in name path) rows) (get path community.redirects)
unfolding add_all with_path
get-add_all name path [] community = refl
get-add_all name path (row ∷ rows) community = ground (
  arith,
  get-add_all name path rows (if is_of name row then with_path row community else community),
  get-insert row.legacy_path path row.new_path community.redirects,
)

base-add_all :
    (name : Text) (rows : List RedirectRow) (community : CommunityRedirects)
    → (add_all name rows community).base_legacy_url ≡ community.base_legacy_url
unfolding add_all with_path
base-add_all name [] community = refl
base-add_all name (row ∷ rows) community =
    ground (
      arith,
      base-add_all name rows (if is_of name row then with_path row community else community),
    )

-- The map of the rows leads where the rows say.
redirect_target-add_all :
    (state : State) (tables : Tables) (name : Text) (community : CommunityRedirects)
    (url : Option (Option Text)) (uri : Uri)
    → community.redirects ≡ []
    → community.base_legacy_url ≡ unwrap_or none url
    → redirect_target state name (add_all name tables.1 community) uri
      ≡ target_in state tables name url uri
unfolding redirect_target
redirect_target-add_all state tables name community url uri empty base = ground (
  arith,
  empty,
  base,
  get-add_all name (normalize_legacy_path uri.path) tables.1 community,
  base-add_all name tables.1 community,
)

redirect_to-known :
    (state : State) (tables : Tables) (uri : Uri) (name : Text) (community : CommunityRedirects)
    (url : Option (Option Text))
    → get name (built tables) ≡ some (add_all name tables.1 community)
    → community.redirects ≡ []
    → community.base_legacy_url ≡ unwrap_or none url
    → redirect_to state (built tables) uri (some name)
      ≡ permanent (target_in state tables name url uri)
unfolding redirect_to
redirect_to-known state tables uri name community url found empty base =
    ground (arith, found, redirect_target-add_all state tables name community url uri empty base)

pub redirect_to-built :
    (state : State) (tables : Tables) (uri : Uri) (name : Option Text)
    → redirect_to state (built tables) uri name ≡ answer_in state tables uri name
unfolding redirect_to built
redirect_to-built state tables uri none = refl
redirect_to-built state tables uri (some name) =
    let seeded = put_all seed tables.0 [] in
    let community = get-put_all-seed name tables.0 [] in
    elim (Option-cases (last_match (legacy_url_in name) tables.0)) [
      | inr (url, e) ↦
          let fresh : CommunityRedirects = record { base_legacy_url = url; redirects = [] } in
          let found = get-put_all-some name tables.1 seeded fresh (ground (arith, community, e)) in
          redirect_to-known state tables uri name fresh (some url) found refl refl
          ∙ sym (ap (λ u. answer_for state tables name u uri) e)
      | inl e ↦
          let found = get-put_all-none name tables.1 seeded (ground (arith, community, e)) in
          elim (Bool-cases (any (is_of name) tables.1)) [
            | inl named ↦
                redirect_to-known state tables uri name no_redirects none
                  (ground (arith, found, named)) refl refl
                ∙ ground (arith, named, e)
            | inr unnamed ↦ ground (arith, found, unnamed, e)
          ]
    ]
