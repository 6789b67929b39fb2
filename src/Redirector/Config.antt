-- ===== src/Redirector/Config.antt =====
-- ocg-redirector/src/config.rs: the settings of the server. `Uri::from_str` of the http crate is a
-- parameter; reading the settings is figment's.
use open_community_groups.Prelude.{
  ◌≡◌, Bool, false, not, ◌||◌, ◌==◌, nat_eq, list_eq, Option, none, some, ◌++◌, is_none,
  if◌then◌else◌, Option-cases, inl, inr, arith,
}
use open_community_groups.Prelude.Text.{Text, codes}
use open_community_groups.Prelude.Result.{Result, ok, err, Result-cases}

pub record HttpServerConfig : Type 0 where
  pub addr : Text
  pub base_redirect_url : Text

-- What is read of a `Uri`.
pub record Uri : Type 0 where
  pub scheme_str : Option Text
  pub host : Option Text
  pub path : Text
  pub path_and_query : Option Text

-- A request's method.
pub data Method : Type 0 where
  get head other : Method

abbrev pub ParseUri : Type 0
ParseUri = Text → Result Text Uri

is_http : Option Text → Bool
is_http none = false
is_http (some scheme) = scheme == codes "http" || scheme == codes "https"

check_url : Text → Result Text Uri → Result Text (Unit {0})
unfolding is_http
check_url field_name (err e) = err (field_name ++ (codes " is invalid: " ++ e))
check_url field_name (ok uri) =
    if not (is_http uri.scheme_str) || is_none uri.host
    then err (field_name ++ codes " must be an absolute http(s) URL")
    else ok tt

module _ (parse : ParseUri) where
  validate_url : Text → Text → Result Text (Unit {0})
  unfolding check_url
  validate_url value field_name = check_url field_name (parse value)

  -- `Config::validate`
  pub validate : HttpServerConfig → Result Text (Unit {0})
  unfolding validate_url
  validate cfg = validate_url cfg.base_redirect_url (codes "server.base_redirect_url")

  -- `none` where the source panics.
  unfoldable pub redirect_host_suffix : HttpServerConfig → Option Text
  redirect_host_suffix cfg = elim (parse cfg.base_redirect_url) [
    | err e ↦ none
    | ok uri ↦ elim uri.host [ none ↦ none | some host ↦ some (codes "redirects." ++ host) ]
  ]

  -- Settings that were validated cause no panic.
  pub validate-redirect_host_suffix :
      (cfg : HttpServerConfig)
      → validate cfg ≡ ok tt
      → (suffix : Text) × (redirect_host_suffix cfg ≡ some suffix)
  unfolding validate validate_url check_url redirect_host_suffix
  validate-redirect_host_suffix cfg e = elim (Result-cases (parse cfg.base_redirect_url)) [
    | inr (x, p) ↦ absurd (ground (arith, p, e))
    | inl (uri, p) ↦ elim (Option-cases uri.host) [
      | inl q ↦ absurd (ground (arith, p, q, e))
      | inr (host, q) ↦ (codes "redirects." ++ host, ground (arith, p, q))
    ]
  ]
