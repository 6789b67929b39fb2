-- ===== src/Redirector/Tables/Rows.antt =====
-- What the redirector is to answer, by the rows of the two tables alone.
use open_community_groups.Prelude.{
  Bool, ◌&&◌, ◌==◌, nat_eq, list_eq, list_same, String, Option, none, some, List, [], ◌∷◌, ◌++◌,
  if◌then◌else◌, any, unwrap_or,
}
use open_community_groups.Prelude.Text.{Text, codes}
use open_community_groups.Prelude.Result.{Result, ok, err, ◌>>=◌, ◌>>◌}
use open_community_groups.Redirector.Config.{Method, Uri}
use open_community_groups.Redirector.Router.{
  Response, not_found, permanent, method_not_allowed, success, State, is_slash_first,
  community_name_from_headers, normalize_legacy_path, community_redirect_target,
  legacy_redirect_target,
}
use open_community_groups.Redirector.Tables.{RedirectRow, CommunityRow, PgDb}

-- The rows of the two tables.
abbrev pub Tables : Type 0
Tables = List CommunityRow × List RedirectRow

abbrev pub first_some : {A : Type 0} → Option A → Option A → Option A
first_some (some a) o = some a
first_some none o = o

-- What the last row of those that give something gives.
abbrev pub last_match : {A B : Type 0} → (A → Option B) → List A → Option B
last_match f [] = none
last_match f (x ∷ xs) = first_some (last_match f xs) (f x)

abbrev pub legacy_url_in : Text → CommunityRow → Option (Option Text)
legacy_url_in name (community_name, base_legacy_url) =
    if list_same community_name name then some base_legacy_url else none

abbrev pub is_of : Text → RedirectRow → Bool
is_of name row = list_same row.community_name name

abbrev pub new_path_in : Text → Text → RedirectRow → Option Text
new_path_in name path row =
    if is_of name row && list_same row.legacy_path path then some row.new_path else none

-- The target of a path of a community: the last row for the path, or else the legacy site that the
-- last row of the community gives, or else the page of the community.
abbrev pub target_in : State → Tables → Text → Option (Option Text) → Uri → Text
target_in state (communities, redirects) name legacy_url uri =
    let legacy_path = normalize_legacy_path uri.path in
    let home = community_redirect_target state.base_redirect_url name in
    if legacy_path == codes "/"
    then home
    else elim (last_match (new_path_in name legacy_path) redirects) [
      | some new_path ↦ state.base_redirect_url ++ new_path
      | none ↦ elim (unwrap_or none legacy_url) [
        | some base_legacy_url ↦ legacy_redirect_target base_legacy_url uri
        | none ↦ home
      ]
    ]

-- A community that neither table names is not found.
abbrev pub answer_for : State → Tables → Text → Option (Option Text) → Uri → Response
answer_for state tables name (some legacy_url) uri =
    permanent (target_in state tables name (some legacy_url) uri)
answer_for state tables name none uri =
    if any (is_of name) tables.1
    then permanent (target_in state tables name none uri)
    else not_found

abbrev pub answer_in : State → Tables → Uri → Option Text → Response
answer_in state tables uri none = not_found
answer_in state tables uri (some name) =
    answer_for state tables name (last_match (legacy_url_in name) tables.0) uri

-- The rows, if all of them can be read.
abbrev pub all_rows : {Row : Type 0} → List (Result String Row) → Result String (List Row)
all_rows [] = ok []
all_rows (ok row ∷ rows) = do rest ← all_rows rows; ok (row ∷ rest)
all_rows (err e ∷ rows) = err e

-- The tables of a database, if they can be read in full.
abbrev pub tables_of : PgDb → Result String Tables
tables_of db = do
  db.connection
  community_rows ← db.list_redirect_communities
  redirect_rows ← db.list_redirects
  communities ← all_rows community_rows
  redirects ← all_rows redirect_rows
  ok (communities, redirects)

-- The tables that were read in full last.
abbrev pub latest_of : Tables → Result String Tables → Tables
latest_of tables (ok newer) = newer
latest_of tables (err e) = tables

abbrev pub latest : Tables → List PgDb → Tables
latest tables [] = tables
latest tables (db ∷ dbs) = latest (latest_of tables (tables_of db)) dbs

-- The answer by the method and the path: other methods than GET and HEAD are not allowed, the health
-- check succeeds, and the other paths have the answer that is given.
abbrev pub answer_at : Method → Text → Response → Response
answer_at Method.other path answer = if is_slash_first path then method_not_allowed else not_found
answer_at _ path answer =
    if path == codes "/health-check"
    then success
    else if is_slash_first path
    then answer
    else not_found

-- What a server answers, by the tables alone.
abbrev pub serve_tables :
    Result String Tables → Option State → List PgDb → Method → Option Text → Uri → Option Response
serve_tables (err e) state dbs method host uri = none
serve_tables (ok tables) none dbs method host uri = none
serve_tables (ok tables) (some state) dbs method host uri = some (
    answer_at method uri.path (
      answer_in state (latest tables dbs) uri
        (community_name_from_headers host state.redirect_host_suffix)))
