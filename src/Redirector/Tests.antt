-- ===== src/Redirector/Tests.antt =====
-- A redirector with one community, whose second load fails.
use open_community_groups.Prelude.{◌≡◌, ◌↔◌, refl, none, some, [], ◌∷◌, ◌++◌}
use open_community_groups.Prelude.Text.{Text, codes}
use open_community_groups.Prelude.Text.Slices.{to_ascii_lowercase, trim_end_matches}
use open_community_groups.Prelude.Result.{ok, err}
use open_community_groups.Redirector.Config.{HttpServerConfig, Method, Uri, ParseUri}
use open_community_groups.Redirector.Router.{setup, community_name_from_host}
use open_community_groups.Redirector.Router.Hosts.{Names, community_name_from_host-Names}
use open_community_groups.Redirector.Tables.{PgDb, serve}
use open_community_groups.Redirector.Tables.Rows.{tables_of, serve_tables}
use open_community_groups.Redirector.Tables.Refine.{serve-serve_tables}

abbrev parse : ParseUri
parse url = ok (record {
  scheme_str = some (codes "https");
  host = some (codes "ocg.example");
  path = codes "/";
  path_and_query = none;
})

abbrev cfg : HttpServerConfig
cfg = record { addr = codes "127.0.0.1:9001"; base_redirect_url = codes "https://ocg.example" }

abbrev database : PgDb
database = record {
  connection = ok tt;
  list_redirect_communities = ok (ok (codes "cncf", none) ∷ []);
  list_redirects = ok (
      ok (record {
        community_name = codes "cncf";
        legacy_path = codes "/old";
        new_path = codes "/cncf/group/new";
      })
      ∷ []);
}

abbrev unreachable : PgDb
unreachable = record {
  connection = err "timeout";
  list_redirect_communities = ok [];
  list_redirects = ok [];
}

abbrev request : Uri
request = record {
  scheme_str = none;
  host = none;
  path = codes "/old/";
  path_and_query = some (codes "/old/?a=1");
}

abbrev host : Text
host = codes "CNCF.redirects.ocg.example"

serve-serve_tables_example :
    serve parse cfg database (unreachable ∷ []) Method.get (some host) request
    ≡ serve_tables
        (tables_of database)
        (setup parse cfg)
        (unreachable ∷ [])
        Method.get
        (some host)
        request
serve-serve_tables_example =
    serve-serve_tables parse cfg database (unreachable ∷ []) Method.get (some host) request

community_name_from_host-Names_example :
    ((community_name_from_host host (codes "redirects.ocg.example") ≡ some (codes "cncf"))
      ↔ Names (to_ascii_lowercase host) (codes "redirects.ocg.example") (codes "cncf"))
    × (community_name_from_host (host ++ codes ":443") (codes "redirects.ocg.example")
        ≡ community_name_from_host host (codes "redirects.ocg.example"))
unfolding trim_end_matches
community_name_from_host-Names_example =
    community_name_from_host-Names host (codes "443") (codes "redirects.ocg.example") (codes "cncf")
      refl refl refl refl refl
