-- ===== src/Pagination.antt =====
-- ocg-server/src/types/pagination.rs: the offsets of the first, last, next and previous pages, the
-- links made of them, and the URLs of the links. A `usize` has 64 bits, and its `+` wraps as in a
-- release build; `none` is a panic. Texts that are walked are lists of character codes. Filters are
-- an interface, since their query text comes from `serde_qs`.
pub mod Offsets
pub mod Walk
pub mod Url
pub mod Links
mod Tests
use open_community_groups.Prelude.{
  ℕ, zero, ◌+◌, ◌-◌, ◌%◌, ◌^◌, Bool, false, ◌||◌, Option, none, some, List, [], ◌∷◌, ◌++◌, ltb,
  ◌==◌, nat_eq, unwrap_or, if◌then◌else◌, is_empty, any,
}

pub record NavigationLinksOffsets : Type 0 where
  pub first : Option ℕ
  pub last : Option ℕ
  pub next : Option ℕ
  pub prev : Option ℕ

-- `usize` addition
abbrev pub add_usize : ℕ → ℕ → ℕ
add_usize a b = (a + b) % 2 ^ 64

-- `usize::is_multiple_of`: only 0 is a multiple of 0.
is_multiple_of : ℕ → ℕ → Bool
is_multiple_of n zero = n == 0
is_multiple_of n d = n % d == 0

-- `a % b` panics at b = 0
rem_usize : ℕ → ℕ → Option ℕ
rem_usize a b = if b == 0 then none else some (a % b)

last_offset : ℕ → ℕ → Option ℕ
unfolding is_multiple_of rem_usize
last_offset limit total =
    if is_multiple_of total limit
    then some (total - limit)
    else elim (rem_usize total limit) [ none ↦ none | some r ↦ some (total - r) ]

backwards : ℕ → ℕ → Option ℕ → Option ℕ → NavigationLinksOffsets
backwards offset limit last next = record {
  first = if ltb 0 offset then some 0 else none;
  last = last;
  next = next;
  prev = if ltb 0 offset then some (offset - limit) else none;
}

unfoldable pub new : Option ℕ → ℕ → ℕ → Option NavigationLinksOffsets
unfolding last_offset backwards
new offset limit total =
    let offset = unwrap_or 0 offset in
    if ltb 0 (total - add_usize offset limit)
    then elim (last_offset limit total) [
      | none ↦ none
      | some last ↦ some (backwards offset limit (some last) (some (add_usize offset limit)))
    ]
    else some (backwards offset limit none none)
