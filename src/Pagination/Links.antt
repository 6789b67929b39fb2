-- ===== src/Pagination/Links.antt =====
-- `NavigationLinks::from_filters`: the links of a page, each with the filters' other parameters.
use mathlib.Core.Path.{subst}
use open_community_groups.Prelude.{
  ℕ, ◌≡◌, ◌≢◌, refl, ap, inl, inr, Option-cases, String, Option, none, some, List, [], ◌∷◌, arith,
}
use open_community_groups.Prelude.Result.{
  Result, ok, err, ◌>>=◌, first_ok, Result-cases, ok_injective,
}
use open_community_groups.Pagination.{NavigationLinksOffsets, new}
use open_community_groups.Pagination.Url.{build_url, split, join, build_url-query}

-- The traits `Pagination` and `ToRawQuery`; the law is that of the implementations of `set_offset`, which
-- assign the field. The query text is taken to be the same while the links of one page are made: that
-- of the event search also depends on the date of the call.
pub record Filters (T : Type 0) : Type 0 where
  pub limit : T → Option ℕ
  pub offset : T → Option ℕ
  pub set_offset : T → Option ℕ → T
  pub to_raw_query : T → Result String (List ℕ)
  pub set_offset-set_offset :
      (f : T) (a b : Option ℕ) → set_offset (set_offset f a) b ≡ set_offset f b

pub record NavigationLink : Type 0 where
  pub hx_url : List ℕ
  pub url : List ℕ

pub record NavigationLinks : Type 0 where
  pub first : Option NavigationLink
  pub last : Option NavigationLink
  pub next : Option NavigationLink
  pub prev : Option NavigationLink

-- From its base, the URL leads to the query: it has the path of its base, and the query of its base
-- with this one behind it. An empty query changes nothing.
abbrev pub LeadsTo : List ℕ → List ℕ → List ℕ → Type 0
LeadsTo base [] url = url ≡ base
LeadsTo base (c ∷ query) url =
    ((split url).path ≡ (split base).path)
    × ((split url).query ≡ some (join (split base).query (c ∷ query)))

build_url-LeadsTo :
    (base query url : List ℕ) → build_url base (ok query) ≡ ok url → LeadsTo base query url
unfolding build_url
build_url-LeadsTo base [] url e = ground (arith, e)
build_url-LeadsTo base (c ∷ query) url e = build_url-query base (c ∷ query) url (λ k. cc) e

no_url : (base : List ℕ) (x : String) (url : List ℕ) → build_url base (err x) ≢ ok url
unfolding build_url
no_url base x url e = cc

module _ {T : Type 0} (F : Filters T) (base_url base_hx_url : List ℕ) where
  open F use {limit, offset, set_offset, to_raw_query, set_offset-set_offset}

  -- `NavigationLink::new`
  pub link : T → Result String NavigationLink
  link filters = do
    hx_url ← build_url base_hx_url (to_raw_query filters)
    url ← build_url base_url (to_raw_query filters)
    ok (record { hx_url = hx_url; url = url })

  -- `if let Some(offset) = …`: the filters keep the offset for what follows.
  set_link : Option ℕ → T → Result String (Option NavigationLink × T)
  set_link none filters = ok (none, filters)
  set_link (some o) filters = do
    l ← link (set_offset filters (some o))
    ok (some l, set_offset filters (some o))

  links_at : NavigationLinksOffsets → T → Result String NavigationLinks
  links_at o filters = set_link o.first filters >>= λ (first, f1).
      set_link o.last f1 >>= λ (last, f2). set_link o.next f2 >>= λ (next, f3).
      set_link o.prev f3 >>= λ (prev, f4).
      ok (record { first = first; last = last; next = next; prev = prev })

  -- `none` is a panic: the limit is not set, or `new` panics.
  unfoldable pub from_filters : T → ℕ → Option (Result String NavigationLinks)
  unfolding links_at set_link link
  from_filters filters total = elim (limit filters) [
    | none ↦ none
    | some l ↦ elim (new (offset filters) l total) [
      | none ↦ none
      | some o ↦ some (links_at o filters)
    ]
  ]

  -- There is no link, or its two URLs lead from their bases to the query text that the filters have
  -- with the offset `o` in place of their own.
  abbrev pub IsLinkOf : T → Option ℕ → Option NavigationLink → Type 0
  IsLinkOf filters none l = l ≡ none
  IsLinkOf filters (some o) l =
      (k : NavigationLink) × (query : List ℕ) × (l ≡ some k)
      × (to_raw_query (set_offset filters (some o)) ≡ ok query)
      × LeadsTo base_url query k.url
      × LeadsTo base_hx_url query k.hx_url

  link-LeadsTo :
      (f : T) (k : NavigationLink)
      → link f ≡ ok k
      → (query : List ℕ) × (to_raw_query f ≡ ok query)
        × LeadsTo base_url query k.url
        × LeadsTo base_hx_url query k.hx_url
  unfolding link
  link-LeadsTo f k e =
      let (hx_url, e1, is_hx) = first_ok (build_url base_hx_url (to_raw_query f)) _ e in
      let (url, e2, is_url) = first_ok (build_url base_url (to_raw_query f)) _ e1 in
      elim (Result-cases (to_raw_query f)) [
        | inr (x, q) ↦ absurd (no_url base_url x url (rw q at is_url))
        | inl (query, q) ↦ (
          query,
          q,
          subst (LeadsTo base_url query) (ap (λ (l : NavigationLink). l.url) (ok_injective e2))
              (build_url-LeadsTo base_url query url (rw q at is_url)),
          subst (LeadsTo base_hx_url query)
              (ap (λ (l : NavigationLink). l.hx_url) (ok_injective e2))
              (build_url-LeadsTo base_hx_url query hx_url (rw q at is_hx)),
        )
      ]

  -- `f` differs from the filters in its offset at most.
  abbrev Moved : T → T → Type 0
  Moved filters f = (o : Option ℕ) → set_offset f o ≡ set_offset filters o

  set_link-IsLinkOf :
      (filters f f' : T) (o : Option ℕ) (l : Option NavigationLink)
      → Moved filters f
      → set_link o f ≡ ok (l, f')
      → IsLinkOf filters o l × Moved filters f'
  unfolding set_link
  set_link-IsLinkOf filters f f' none l m e = (cc, λ q. cc (m q))
  set_link-IsLinkOf filters f f' (some o) l m e =
      let (k, same, is_k) = first_ok (link (set_offset f (some o))) _ e in
      let (query, asked, to_url, to_hx_url) =
        link-LeadsTo (set_offset filters (some o)) k (cc (m (some o))) in
      ((k, query, cc, asked, to_url, to_hx_url), λ q. cc (m q, set_offset-set_offset f (some o) q))

  pub record AreLinks (filters : T) (o : NavigationLinksOffsets) (links : NavigationLinks)
      : Type 0 where
    pub to_first : IsLinkOf filters o.first links.first
    pub to_last : IsLinkOf filters o.last links.last
    pub to_next : IsLinkOf filters o.next links.next
    pub to_prev : IsLinkOf filters o.prev links.prev

  links_at-AreLinks :
      (o : NavigationLinksOffsets) (filters : T) (links : NavigationLinks)
      → links_at o filters ≡ ok links
      → AreLinks filters o links
  unfolding links_at
  links_at-AreLinks o f links e =
      let ((l1, f1), k1, e1) = first_ok (set_link o.first f) _ e in
      let (a1, m1) = set_link-IsLinkOf f f f1 o.first l1 (λ q. refl) e1 in
      let ((l2, f2), k2, e2) = first_ok (set_link o.last f1) _ k1 in
      let (a2, m2) = set_link-IsLinkOf f f1 f2 o.last l2 m1 e2 in
      let ((l3, f3), k3, e3) = first_ok (set_link o.next f2) _ k2 in
      let (a3, m3) = set_link-IsLinkOf f f2 f3 o.next l3 m2 e3 in
      let ((l4, f4), k4, e4) = first_ok (set_link o.prev f3) _ k3 in
      let (a4, m4) = set_link-IsLinkOf f f3 f4 o.prev l4 m3 e4 in
      subst (AreLinks f o) {x = record { first = l1; last = l2; next = l3; prev = l4 }} (cc)
        (record { to_first = a1; to_last = a2; to_next = a3; to_prev = a4 })

  -- When `from_filters` gives links, its limit is set and `new` gives offsets, and there is a link
  -- exactly where there is an offset. Its two URLs have the paths of their bases, and the queries of
  -- their bases with the query text of the same filters at that offset behind.
  pub from_filters-AreLinks :
      (filters : T) (total : ℕ) (links : NavigationLinks)
      → from_filters filters total ≡ some (ok links)
      → (l : ℕ) × (o : NavigationLinksOffsets) × (limit filters ≡ some l)
        × (new (offset filters) l total ≡ some o)
        × AreLinks filters o links
  unfolding from_filters
  from_filters-AreLinks filters total links e = elim (Option-cases (limit filters)) [
    | inl a ↦ absurd (cc (a, e))
    | inr (l, a) ↦ elim (Option-cases (new (offset filters) l total)) [
      | inl b ↦ absurd (ground (arith, a, b))
      | inr (o, b) ↦ (l, o, a, b, links_at-AreLinks o filters links (ground (arith, a, b)))
    ]
  ]
