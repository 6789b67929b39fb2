-- ===== src/Pagination/Tests.antt =====
-- Page offsets, links and URLs at concrete inputs.
use open_community_groups.Prelude.{ℕ, ◌≡◌, refl, Option, none, some, List, [], ◌∷◌, arith, count}
use open_community_groups.Prelude.Result.{ok}
use open_community_groups.Pagination.{NavigationLinksOffsets, new}
use open_community_groups.Pagination.Offsets.{LinksBackwards, LinksForwards, new-links}
use open_community_groups.Pagination.Walk.{walk, shows, walk-covers}
use open_community_groups.Pagination.Url.{build_url, split, join, build_url-query}
use open_community_groups.Pagination.Links.{
  Filters, NavigationLinks, AreLinks, from_filters, from_filters-AreLinks,
}

new_middle :
    new (some 2) 10 20
    ≡ some (record { first = some 0; last = some 10; next = some 12; prev = some 0 })
unfolding new
new_middle = refl

new-links_example :
    (o : NavigationLinksOffsets) × (new (some 20) 10 50 ≡ some o)
    × LinksBackwards 20 10 o
    × LinksForwards 20 10 50 o
new-links_example = new-links 20 10 50 (omega arith) (omega arith)

walk-covers_example : (ps : List ℕ) × (walk 26 10 25 0 ≡ some ps) × (count (shows 10 24) ps ≡ 1)
walk-covers_example = walk-covers 10 25 24 (omega arith) (omega arith) (omega arith)

-- "/e?a" with the parameters "b"
abbrev base : List ℕ
base = b'/' ∷ b'e' ∷ b'?' ∷ b'a' ∷ []

abbrev params : List ℕ
params = b'b' ∷ []

abbrev full : List ℕ
full = b'/' ∷ b'e' ∷ b'?' ∷ b'a' ∷ b'&' ∷ b'b' ∷ []

built : build_url base (ok params) ≡ ok full
unfolding build_url
built = refl

build_url-query_example :
    ((split full).path ≡ (split base).path)
    × ((split full).query ≡ some (join (split base).query params))
build_url-query_example = build_url-query base params full (λ e. cc) built

-- Filters that are no more than a page size and an offset.
abbrev Page : Type 0
Page = Option ℕ × Option ℕ

abbrev page : Filters Page
page = record {
  limit = λ p. p.0;
  offset = λ p. p.1;
  set_offset = λ p o. (p.0, o);
  to_raw_query = λ p. ok params;
  set_offset-set_offset = λ f a b. refl;
}

abbrev links : NavigationLinks
links = record {
  first = none;
  last = some (record { hx_url = full; url = full });
  next = some (record { hx_url = full; url = full });
  prev = none;
}

linked : from_filters page base base (some 10, none) 15 ≡ some (ok links)
unfolding from_filters new build_url
linked = refl

from_filters-AreLinks_example :
    (l : ℕ) × (o : NavigationLinksOffsets) × (◌≡◌ {A = Option ℕ} (some 10) (some l))
    × (new none l 15 ≡ some o)
    × AreLinks page base base (some 10, none) o links
from_filters-AreLinks_example = from_filters-AreLinks page base base (some 10, none) 15 links linked
