-- ===== src/Pagination/Walk.antt =====
-- A client that follows the `next` links of `NavigationLinksOffsets::new` from page to page.
use open_community_groups.Prelude.{
  ℕ, zero, suc, ◌+◌, ◌^◌, ◌≤◌, ◌<◌, ◌≡◌, Bool, ◌&&◌, Option, none, some, List, [], ◌∷◌, inl, inr,
  arith, ltb, leb, count,
}
use open_community_groups.Pagination.{new}
use open_community_groups.Pagination.Offsets.{new-links}

-- The pages visited from `offset` on; `none` if the fuel runs out or `new` panics.
pub walk : ℕ → ℕ → ℕ → ℕ → Option (List ℕ)
walk zero limit total offset = none
walk (suc fuel) limit total offset = elim (new (some offset) limit total) [
  | none ↦ none
  | some o ↦ elim o.next [
    | none ↦ some (offset ∷ [])
    | some n ↦ elim (walk fuel limit total n) [ none ↦ none | some ps ↦ some (offset ∷ ps) ]
  ]
]

abbrev pub shows : ℕ → ℕ → ℕ → Bool
shows limit row page = leb page row && ltb row (page + limit)

-- What a walk from `offset` shows of a row below the total: it is on one page, if not before.
record Visits (limit row offset : ℕ) (ps : List ℕ) : Type 0 where
  once : offset ≤ row → count (shows limit row) ps ≡ 1
  never : row < offset → count (shows limit row) ps ≡ 0

module _ (limit total row : ℕ) (h : 0 < limit) (fits : total + limit < 2 ^ 64)
    (r : row < total) where
  last-Visits : (offset : ℕ) → total ≤ offset + limit → Visits limit row offset (offset ∷ [])
  last-Visits offset e = record { once = λ a. ground arith; never = λ a. ground arith }

  cons-Visits :
      (offset : ℕ) (ps : List ℕ)
      → Visits limit row (offset + limit) ps
      → Visits limit row offset (offset ∷ ps)
  cons-Visits offset ps v = record {
    once = λ a. ground (arith, v.once, v.never);
    never = λ a. ground (arith, v.once, v.never);
  }

  walk-Visits :
      (fuel offset : ℕ)
      → total < offset + fuel
      → offset ≤ total
      → (ps : List ℕ) × (walk fuel limit total offset ≡ some ps) × Visits limit row offset ps
  unfolding walk
  walk-Visits zero offset enough le = absurd (omega arith)
  walk-Visits (suc fuel) offset enough le =
      let (o, e, b, f) = new-links offset limit total (omega arith) h in
      elim f [
        | inl (end, n, l) ↦ (offset ∷ [], ground (arith, e, n), last-Visits offset end)
        | inr (l, more, n, _, _, _) ↦
            let (ps, w, v) = walk-Visits fuel (offset + limit) (omega arith) (omega arith) in
            (offset ∷ ps, ground (arith, e, n, w), cons-Visits offset ps v)
      ]

-- With a positive page size and no overflow, following `next` from offset 0 ends within total + 1
-- pages, and every row below the total is on exactly one of the pages visited.
pub walk-covers :
    (limit total row : ℕ)
    → 0 < limit
    → total + limit < 2 ^ 64
    → row < total
    → (ps : List ℕ) × (walk (total + 1) limit total 0 ≡ some ps) × (count (shows limit row) ps ≡ 1)
walk-covers limit total row h fits r =
    let (ps, w, v) =
      walk-Visits limit total row h fits r (total + 1) 0 (omega arith) (omega arith) in
    (ps, w, v.once (omega arith))
