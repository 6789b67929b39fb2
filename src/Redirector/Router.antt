-- ===== src/Redirector/Router.antt =====
-- ocg-redirector/src/router.rs: the answer to a request. Of a request the method counts, the `Host`
-- header, if it is there and is text, and the URI.
pub mod Hosts
use open_community_groups.Prelude.{
  ℕ, String, Bool, true, false, not, ◌&&◌, ◌==◌, nat_eq, list_eq, Option, none, some, List, [], ◌∷◌,
  ◌++◌, is_empty, if◌then◌else◌, nat_beq, contains, unwrap_or,
}
use open_community_groups.Prelude.Text.{Text, codes}
use open_community_groups.Prelude.Text.Slices.{
  is_whitespace, trim_start_matches, trim_end_matches, trim, to_ascii_lowercase, rsplit_once,
  strip_suffix,
}
use open_community_groups.Redirector.Maps.{HashMap, get}
use open_community_groups.Redirector.Config.{
  HttpServerConfig, Method, Uri, ParseUri, redirect_host_suffix,
}

pub record CommunityRedirects : Type 0 where
  pub base_legacy_url : Option Text
  pub redirects : HashMap Text

abbrev pub Redirects : Type 0
Redirects = HashMap CommunityRedirects

-- The state but for the map of redirects, which is replaced while the server runs.
pub record State : Type 0 where
  pub base_redirect_url : Text
  pub redirect_host_suffix : Text

pub data Response : Type 0 where
  method_not_allowed not_found success : Response
  permanent : Text → Response

-- `get(handler)`
on_get : Method → Response → Response
on_get Method.get response = response
on_get Method.head response = response
on_get Method.other response = method_not_allowed

-- The handler `health_check`.
abbrev health_check : Response
health_check = success

abbrev pub is_slash_first : Text → Bool
is_slash_first [] = false
is_slash_first (c ∷ path) = nat_beq c b'/'

abbrev pub is_slash : ℕ → Bool
is_slash c = nat_beq c b'/'

abbrev pub is_dot : ℕ → Bool
is_dot c = nat_beq c b'.'

unfoldable pub without_port : Text → Option (Text × Text) → Text
without_port host none = host
without_port host (some (name, port)) = name

unfoldable pub normalize_host : Text → Text
unfolding trim rsplit_once trim_end_matches to_ascii_lowercase without_port
normalize_host host =
    let trimmed = trim host in
    to_ascii_lowercase (trim_end_matches is_dot (without_port trimmed (rsplit_once b':' trimmed)))

unfoldable pub normalize_legacy_path : Text → Text
unfolding trim_end_matches
normalize_legacy_path path =
    let normalized_path = trim_end_matches is_slash path in
    if is_empty normalized_path then codes "/" else normalized_path

unfoldable pub normalize_redirect_host_suffix : Text → Text
unfolding trim trim_start_matches trim_end_matches to_ascii_lowercase
normalize_redirect_host_suffix suffix =
    to_ascii_lowercase (trim_end_matches is_dot (trim_start_matches is_dot (trim suffix)))

-- A name is one label: not empty, and without a dot.
unfoldable pub valid_label : Option Text → Option Text
valid_label none = none
valid_label (some name) =
    if not (is_empty name) && not (contains name b'.') then some name else none

unfoldable pub name_of : Option Text → Option Text
unfolding strip_suffix valid_label
name_of none = none
name_of (some name) = valid_label (strip_suffix (codes ".") name)

unfoldable pub community_name_from_host : Text → Text → Option Text
unfolding normalize_host strip_suffix name_of
community_name_from_host host suffix = name_of (strip_suffix suffix (normalize_host host))

unfoldable pub community_name_from_headers : Option Text → Text → Option Text
unfolding community_name_from_host
community_name_from_headers none suffix = none
community_name_from_headers (some host) suffix = community_name_from_host host suffix

unfoldable pub community_redirect_target : Text → Text → Text
community_redirect_target base_redirect_url community_name =
    base_redirect_url ++ b'/' ∷ community_name

unfoldable pub legacy_redirect_target : Text → Uri → Text
unfolding trim_end_matches
legacy_redirect_target base_legacy_url uri =
    trim_end_matches is_slash base_legacy_url ++ unwrap_or (codes "/") uri.path_and_query

module _ (state : State) where
  -- Where the redirects of the community lead.
  unfoldable pub redirect_target : Text → CommunityRedirects → Uri → Text
  unfolding get normalize_legacy_path community_redirect_target legacy_redirect_target
  redirect_target community_name community uri =
      let legacy_path = normalize_legacy_path uri.path in
      let home = community_redirect_target state.base_redirect_url community_name in
      if legacy_path == codes "/" then home else elim (get legacy_path community.redirects) [
        | some new_path ↦ state.base_redirect_url ++ new_path
        | none ↦ elim community.base_legacy_url [
          | some base_legacy_url ↦ legacy_redirect_target base_legacy_url uri
          | none ↦ home
        ]
      ]

  unfoldable pub redirect_to : Redirects → Uri → Option Text → Response
  unfolding get redirect_target
  redirect_to redirects uri none = not_found
  redirect_to redirects uri (some community_name) = elim (get community_name redirects) [
    | none ↦ not_found
    | some community ↦ permanent (redirect_target community_name community uri)
  ]

  -- The handler `redirect`.
  unfoldable pub redirect : Redirects → Option Text → Uri → Response
  unfolding community_name_from_headers redirect_to
  redirect redirects host uri =
      redirect_to redirects uri (community_name_from_headers host state.redirect_host_suffix)

  -- The routes of `setup`. As axum has it, a route for `get` also answers HEAD, a path as it stands
  -- goes before a wildcard, and a path that does not start with a slash has no route.
  unfoldable pub route : Redirects → Method → Option Text → Uri → Response
  unfolding redirect on_get
  route redirects method host uri =
      if uri.path == codes "/health-check"
      then on_get method health_check
      else if is_slash_first uri.path
      then on_get method (redirect redirects host uri)
      else not_found

-- The state that `setup` makes of the settings; `none` where it panics.
unfoldable pub setup : ParseUri → HttpServerConfig → Option State
unfolding redirect_host_suffix trim_end_matches normalize_redirect_host_suffix
setup parse cfg = elim (redirect_host_suffix parse cfg) [
  | none ↦ none
  | some suffix ↦ some (record {
    base_redirect_url = trim_end_matches is_slash cfg.base_redirect_url;
    redirect_host_suffix = normalize_redirect_host_suffix suffix;
  })
]
