-- ===== src/Pagination/Offsets.antt =====
-- The page offsets that `NavigationLinksOffsets::new` computes.
use native.Mathlib.Decide.{dec_lt}
use native.Mathlib.Nat.{div-add-mod, mod-lt, mod-eq_of_lt}
use open_community_groups.Prelude.{
  ℕ, zero, suc, ◌+◌, ◌-◌, ◌*◌, ◌/◌, ◌%◌, ◌^◌, ◌≤◌, ◌<◌, ◌≡◌, refl, Option, none, some, arith,
  Bool-cases, ◌⊎◌, inl, inr, ◌==◌, nat_eq, nat_beq_iff,
}
use open_community_groups.Pagination.{
  NavigationLinksOffsets, new, last_offset, is_multiple_of, rem_usize, backwards, add_usize,
}

-- The last page starts at a multiple of the page size, below the total, and reaches the total.
pub record IsLastPage (limit total l : ℕ) : Type 0 where
  pub index : ℕ
  pub aligned : l ≡ index * limit
  pub starts : l < total
  pub reaches : total ≤ l + limit

multiple-pred : (q d n : ℕ) → n ≡ d * q → 0 < n → n - d ≡ (q - 1) * d
multiple-pred zero d n e h = absurd (omega arith)
multiple-pred (suc p) d n e h = grind arith

multiple-ge : (q d n : ℕ) → n ≡ d * q → 0 < n → d ≤ n
multiple-ge zero d n e h = absurd (omega arith)
multiple-ge (suc p) d n e h = omega arith

last_offset-IsLastPage :
    (limit total : ℕ)
    → 0 < limit
    → 0 < total
    → (l : ℕ) × (last_offset limit total ≡ some l) × IsLastPage limit total l
unfolding last_offset is_multiple_of rem_usize
last_offset-IsLastPage zero total h k = absurd (omega arith)
last_offset-IsLastPage (suc d) total h k = elim (Bool-cases (total % suc d == 0)) [
  | inl e ↦
      let zero_rem : total % suc d ≡ 0 = (nat_beq_iff _ 0).0 e in
      let whole : total ≡ suc d * (total / suc d) = omega (arith, div-add-mod total (suc d)) in
      (
        total - suc d,
        ground (arith, e),
        record {
          index = total / suc d - 1;
          aligned = multiple-pred (total / suc d) (suc d) total whole k;
          starts = omega arith;
          reaches = omega arith;
        },
      )
  | inr e ↦ (
    total - total % suc d,
    ground (arith, e),
    record {
      index = total / suc d;
      aligned = omega (arith, div-add-mod total (suc d));
      starts = ground arith;
      reaches = omega (arith, mod-lt total {m = suc d} (omega arith));
    },
  )
]

-- On the first page there is nothing before; elsewhere the first page starts at 0, and the previous
-- page starts one page size before this one, or at 0 if this one starts earlier than that.
abbrev pub LinksBackwards : ℕ → ℕ → NavigationLinksOffsets → Type 0
LinksBackwards offset limit o =
    ((offset ≡ 0) × (o.first ≡ none) × (o.prev ≡ none))
    ⊎ ((p : ℕ) × (o.first ≡ some 0)
        × (o.prev ≡ some p)
        × ((p + limit ≡ offset) ⊎ ((offset < limit) × (p ≡ 0))))

-- On a page that reaches the total there is nothing after; elsewhere the next page starts where
-- this one ends, below the total, and the last page starts after this one.
abbrev pub LinksForwards : ℕ → ℕ → ℕ → NavigationLinksOffsets → Type 0
LinksForwards offset limit total o =
    ((total ≤ offset + limit) × (o.next ≡ none) × (o.last ≡ none))
    ⊎ ((l : ℕ) × (offset + limit < total)
        × (o.next ≡ some (offset + limit))
        × (o.last ≡ some l)
        × (offset < l)
        × IsLastPage limit total l)

module _ (offset limit total : ℕ) (fits : offset + limit < 2 ^ 64) where
  add_usize_exact : add_usize offset limit ≡ offset + limit
  add_usize_exact = mod-eq_of_lt fits

  -- No page follows: the total is reached.
  new-at_end :
      total ≤ offset + limit
      → new (some offset) limit total ≡ some (backwards offset limit none none)
  unfolding new
  new-at_end h = ground (arith, add_usize_exact)

  new-before_end :
      (l : ℕ)
      → offset + limit < total
      → last_offset limit total ≡ some l
      → new (some offset) limit total
        ≡ some (backwards offset limit (some l) (some (offset + limit)))
  unfolding new
  new-before_end l h e = rw (e, add_usize_exact) (ground arith)

  previous : (offset - limit + limit ≡ offset) ⊎ ((offset < limit) × (offset - limit ≡ 0))
  previous = elim (dec_lt offset limit) [ yes q ↦ inr (q, omega arith) | no q ↦ inl (omega arith) ]

  backwards-LinksBackwards :
      (l n : Option ℕ) → LinksBackwards offset limit (backwards offset limit l n)
  unfolding backwards
  backwards-LinksBackwards l n = elim (dec_lt 0 offset) [
    | yes p ↦ inr (offset - limit, ground arith, ground arith, previous)
    | no p ↦ inl (omega arith, ground arith, ground arith)
  ]

  -- With a positive page size and no overflow, `new` does not panic. On the first page it links to
  -- nothing before; elsewhere to the first page, at 0, and to the page one page size before this
  -- one, or at 0 if this one starts earlier than that. On a page that reaches the total it links to
  -- nothing after; elsewhere to the page that starts where this one ends, and to the last page, which
  -- starts at a multiple of the page size below the total and reaches the total.
  pub new-links :
      0 < limit
      → (o : NavigationLinksOffsets) × (new (some offset) limit total ≡ some o)
        × LinksBackwards offset limit o
        × LinksForwards offset limit total o
  unfolding backwards
  new-links h = elim (dec_lt (offset + limit) total) [
    | yes p ↦
        let (l, e, last) = last_offset-IsLastPage limit total h (omega arith) in
        (
          backwards offset limit (some l) (some (offset + limit)),
          new-before_end l p e,
          backwards-LinksBackwards (some l) (some (offset + limit)),
          inr (l, p, refl, refl, omega (arith, last.reaches), last),
        )
    | no p ↦ (
      backwards offset limit none none,
      new-at_end (omega arith),
      backwards-LinksBackwards none none,
      inl (omega arith, refl, refl),
    )
  ]
