-- ===== src/Redirector/Tables.antt =====
-- ocg-redirector/src/db.rs and main.rs: the redirects are loaded from the database before the server
-- starts, and again from time to time. A row is what its columns read as, or the error of the first
-- that does not; the SQL functions are what they return.
pub mod Rows
pub mod Build
pub mod Refine
use open_community_groups.Prelude.{ℕ, String, Option, none, some, List, [], ◌∷◌, unwrap_or}
use open_community_groups.Prelude.Text.{Text}
use open_community_groups.Prelude.Result.{Result, ok, err, ◌>>=◌, ◌>>◌}
use open_community_groups.Redirector.Maps.{HashMap, get, insert}
use open_community_groups.Redirector.Config.{HttpServerConfig, Method, Uri, ParseUri}
use open_community_groups.Redirector.Router.{
  CommunityRedirects, Redirects, Response, State, route, setup,
}

pub record RedirectRow : Type 0 where
  pub community_name : Text
  pub legacy_path : Text
  pub new_path : Text

abbrev pub CommunityRow : Type 0
CommunityRow = Text × Option Text

-- What the database answers to one load.
pub record PgDb : Type 0 where
  pub connection : Result String (Unit {0})
  pub list_redirect_communities : Result String (List (Result String CommunityRow))
  pub list_redirects : Result String (List (Result String RedirectRow))

-- `CommunityRedirects::default`
abbrev pub no_redirects : CommunityRedirects
no_redirects = record { base_legacy_url = none; redirects = [] }

pub seed : CommunityRow → Redirects → Redirects
seed (community_name, base_legacy_url) redirects =
    insert community_name (record { base_legacy_url = base_legacy_url; redirects = [] }) redirects

with_path : RedirectRow → CommunityRedirects → CommunityRedirects
unfolding insert
with_path row community = record community {
  redirects = insert row.legacy_path row.new_path community.redirects;
}

pub attach : RedirectRow → Redirects → Redirects
unfolding insert get with_path
attach row redirects =
    let community = unwrap_or no_redirects (get row.community_name redirects) in
    insert row.community_name (with_path row community) redirects

-- The loops over the rows, the first row that cannot be read ending them.
for_rows :
    {Row : Type 0}
    → (Row → Redirects → Redirects)
    → List (Result String Row)
    → Redirects
    → Result String Redirects
for_rows f [] redirects = ok redirects
for_rows f (ok row ∷ rows) redirects = for_rows f rows (f row redirects)
for_rows f (err e ∷ rows) redirects = err e

pub load_redirects : PgDb → Result String Redirects
unfolding for_rows seed attach
load_redirects db = do
  db.connection
  community_rows ← db.list_redirect_communities
  redirect_rows ← db.list_redirects
  redirects ← for_rows seed community_rows []
  for_rows attach redirect_rows redirects

-- One round of the refresh.
refresh : Redirects → Result String Redirects → Redirects
refresh current (ok refreshed_redirects) = refreshed_redirects
refresh current (err e) = current

-- What the redirects are after refreshes from the database in these states.
pub refreshed : Redirects → List PgDb → Redirects
unfolding refresh load_redirects
refreshed current [] = current
refreshed current (db ∷ dbs) = refreshed (refresh current (load_redirects db)) dbs

-- The answers of a server that loaded its redirects and then refreshed them: `none` where it has not
-- started.
serve_from : Option State → Redirects → List PgDb → Method → Option Text → Uri → Option Response
unfolding refreshed route
serve_from none current dbs method host uri = none
serve_from (some state) current dbs method host uri =
    some (route state (refreshed current dbs) method host uri)

pub serve :
    ParseUri → HttpServerConfig → PgDb → List PgDb → Method → Option Text → Uri → Option Response
unfolding load_redirects serve_from setup
serve parse cfg db dbs method host uri = elim (load_redirects db) [
  | err e ↦ none
  | ok current ↦ serve_from (setup parse cfg) current dbs method host uri
]
