-- ===== src/Redirector/Tables/Refine.antt =====
-- The redirector answers as the tables of the database say.
use open_community_groups.Prelude.{
  ◌≡◌, refl, sym, ap, ◌∙◌, ◌==◌, nat_eq, list_eq, arith, Bool-cases, String, Option, List, [], ◌∷◌,
  Option-cases, inl, inr,
}
use open_community_groups.Prelude.Text.{Text, codes}
use open_community_groups.Prelude.Result.{Result, ok, err, ◌>>=◌, Result-cases, bind_assoc}
use open_community_groups.Redirector.Config.{HttpServerConfig, Method, Uri, ParseUri}
use open_community_groups.Redirector.Router.{
  Redirects, State, redirect, route, setup, community_name_from_headers,
}
use open_community_groups.Redirector.Tables.{
  RedirectRow, CommunityRow, PgDb, seed, attach, for_rows, load_redirects, refresh, refreshed,
  serve_from, serve,
}
use open_community_groups.Redirector.Tables.Rows.{
  Tables, all_rows, tables_of, latest, answer_in, answer_at, serve_tables,
}
use open_community_groups.Redirector.Tables.Build.{put_all, built, redirect_to-built}

for_rows-put_all :
    {Row : Type 0} (f : Row → Redirects → Redirects) (rows : List (Result String Row))
    (m : Redirects)
    → for_rows f rows m ≡ (do l ← all_rows rows; ok (put_all f l m))
unfolding for_rows put_all
for_rows-put_all f [] m = refl
for_rows-put_all f (err e ∷ rows) m = refl
for_rows-put_all f (ok row ∷ rows) m =
    for_rows-put_all f rows (f row m)
    ∙ sym (bind_assoc (all_rows rows) (λ rest. ok (row ∷ rest)) (λ l. ok (put_all f l m)))

put_rows-built :
    (community_rows : List (Result String CommunityRow))
    (redirect_rows : List (Result String RedirectRow))
    → (do redirects ← for_rows seed community_rows []; for_rows attach redirect_rows redirects)
      ≡ (do
        communities ← all_rows community_rows
        redirects ← all_rows redirect_rows
        ok (built (communities, redirects)))
unfolding built
put_rows-built community_rows redirect_rows = elim (Result-cases (all_rows community_rows)) [
  | inr (e, p) ↦ ground (arith, p, for_rows-put_all seed community_rows [])
  | inl (communities, p) ↦ ground (
    arith,
    p,
    for_rows-put_all seed community_rows [],
    for_rows-put_all attach redirect_rows (put_all seed communities []),
  )
]

load_by :
    (connection : Result String (Unit {0}))
    (communities : Result String (List (Result String CommunityRow)))
    (redirects : Result String (List (Result String RedirectRow)))
    → load_redirects (record {
      connection = connection;
      list_redirect_communities = communities;
      list_redirects = redirects;
    })
      ≡ (do
        tables ← tables_of (record {
          connection = connection;
          list_redirect_communities = communities;
          list_redirects = redirects;
        })
        ok (built tables))
unfolding load_redirects
load_by (err e) communities redirects = refl
load_by (ok u) (err e) redirects = refl
load_by (ok u) (ok community_rows) (err e) = refl
load_by (ok u) (ok community_rows) (ok redirect_rows) =
    let put = put_rows-built community_rows redirect_rows in
    elim (Result-cases (all_rows community_rows)) [
      | inr (e, p) ↦ ground (arith, put, p)
      | inl (communities, p) ↦ elim (Result-cases (all_rows redirect_rows)) [
        | inr (e, q) ↦ ground (arith, put, p, q)
        | inl (redirects, q) ↦ ground (arith, put, p, q)
      ]
    ]

load_redirects-built :
    (db : PgDb) → load_redirects db ≡ (do tables ← tables_of db; ok (built tables))
load_redirects-built db = load_by db.connection db.list_redirect_communities db.list_redirects

refreshed-built :
    (tables : Tables) (dbs : List PgDb) → refreshed (built tables) dbs ≡ built (latest tables dbs)
unfolding refreshed refresh
refreshed-built tables [] = refl
refreshed-built tables (db ∷ dbs) = elim (Result-cases (tables_of db)) [
  | inr (e, p) ↦ ground (arith, p, load_redirects-built db, refreshed-built tables dbs)
  | inl (newer, p) ↦ ground (arith, p, load_redirects-built db, refreshed-built newer dbs)
]

route-answer_at :
    (state : State) (redirects : Redirects) (method : Method) (host : Option Text) (uri : Uri)
    → route state redirects method host uri
      ≡ answer_at method uri.path (redirect state redirects host uri)
unfolding route
route-answer_at state redirects Method.get host uri = ground arith
route-answer_at state redirects Method.head host uri = ground arith
route-answer_at state redirects Method.other host uri =
    elim (Bool-cases (uri.path == codes "/health-check")) [
      | inl e ↦ rw (e, (list_eq.same_exact uri.path (codes "/health-check")).1 e)
      | inr e ↦ ground (arith, e)
    ]

redirect-answer_in :
    (state : State) (tables : Tables) (host : Option Text) (uri : Uri)
    → redirect state (built tables) host uri
      ≡ answer_in state tables uri (community_name_from_headers host state.redirect_host_suffix)
unfolding redirect
redirect-answer_in state tables host uri =
    redirect_to-built state tables uri (community_name_from_headers host state.redirect_host_suffix)

-- For every database and every sequence of refreshes, a redirector answers each GET or HEAD request,
-- other than for the health check, as the rows of the tables that it read in full last say: not found
-- if neither table names the community of the host, the target of the last row for the path if there
-- is one, or else the legacy site of the last row of the community, or else the page of the
-- community. The health check succeeds, other methods are not allowed, and a path without a slash at
-- its start is not found. It starts exactly if the tables can be read in full at first and the
-- settings give a host.
pub serve-serve_tables :
    (parse : ParseUri) (cfg : HttpServerConfig) (db : PgDb) (dbs : List PgDb) (method : Method)
    (host : Option Text) (uri : Uri)
    → serve parse cfg db dbs method host uri
      ≡ serve_tables (tables_of db) (setup parse cfg) dbs method host uri
unfolding serve serve_from
serve-serve_tables parse cfg db dbs method host uri = elim (Result-cases (tables_of db)) [
  | inr (e, p) ↦ ground (arith, p, load_redirects-built db)
  | inl (tables, p) ↦ elim (Option-cases (setup parse cfg)) [
    | inl q ↦ ground (arith, p, q, load_redirects-built db)
    | inr (state, q) ↦
        let rows = latest tables dbs in
        let loaded : load_redirects db ≡ ok (built tables) =
          ground (arith, p, load_redirects-built db) in
        let answered : route state (refreshed (built tables) dbs) method host uri
            ≡ answer_at method uri.path (
                answer_in state rows uri
                  (community_name_from_headers host state.redirect_host_suffix)) =
          ap (λ m. route state m method host uri) (refreshed-built tables dbs)
          ∙ route-answer_at state (built rows) method host uri
          ∙ ap (answer_at method uri.path) (redirect-answer_in state rows host uri) in
        ground (arith, p, q, loaded, answered)
  ]
]
