-- ===== src/ActivityTracker/OrderTests.antt =====
-- The rows of a batch in the order of their columns.
use Prim.Native.Char.{code}
use Prim.Native.String.{[] as empty, ◌∷◌ as ◌∷ˢ◌}
use text.Mathlib.TextEquality.{Char-path}
use mathlib.Core.List.{Permᴰ}
use open_community_groups.Prelude.{
  ℕ, String, ◌≡◌, refl, ◌⊎◌, inl, inr, Bool, true, false, not, ◌&&◌, [], ◌∷◌, if◌then◌else◌, ltb,
  leb, arith,
}
use open_community_groups.ActivityTracker.Flusher.{Row, prepare_batch_data}
use open_community_groups.ActivityTracker.Flusher.Order.{RowOrder, prepare_batch_data-perm}

-- The order of texts by their characters, and the order of rows by column.
abbrev text_le : String → String → Bool
text_le empty t = true
text_le (c ∷ˢ s) empty = false
text_le (c ∷ˢ s) (d ∷ˢ t) =
    let rest = text_le s t in
    if ltb (code c) (code d) then true else if ltb (code d) (code c) then false else rest

text_total : (s t : String) → (text_le s t ≡ true) ⊎ (text_le t s ≡ true)
text_total empty t = inl refl
text_total (c ∷ˢ s) empty = inr refl
text_total (c ∷ˢ s) (d ∷ˢ t) = ground (arith, text_total s t)

text_antisym : (s t : String) → text_le s t ≡ true → text_le t s ≡ true → s ≡ t
text_antisym empty empty e f = refl
text_antisym empty (d ∷ˢ t) e f = cc
text_antisym (c ∷ˢ s) empty e f = cc
text_antisym (c ∷ˢ s) (d ∷ˢ t) e f = λ i.
    Char-path c d (ground (arith, e, f)) i
    ∷ˢ text_antisym s t (ground (arith, e, f)) (ground (arith, e, f)) i

text_trans : (s t u : String) → text_le s t ≡ true → text_le t u ≡ true → text_le s u ≡ true
text_trans empty t u e f = refl
text_trans (c ∷ˢ s) empty u e f = cc
text_trans (c ∷ˢ s) (d ∷ˢ t) empty e f = cc
text_trans (c ∷ˢ s) (d ∷ˢ t) (b ∷ˢ u) e f = ground (arith, e, f, text_trans s t u)

abbrev row_le : Row → Row → Bool
row_le (i, s, m) (j, t, n) =
    if ltb i j
    then true
    else if ltb j i
    then false
    else if not (text_le t s)
    then true
    else text_le s t && leb m n

row_antisym :
    (i j : ℕ) (s t : String) (m n : ℕ)
    → row_le (i, s, m) (j, t, n) ≡ true
    → row_le (j, t, n) (i, s, m) ≡ true
    → ◌≡◌ {A = Row} (i, s, m) (j, t, n)
row_antisym i j s t m n e f =
    let same_id : i ≡ j = ground (arith, e, f, text_total s t) in
    let below : text_le s t ≡ true = ground (arith, e, f, text_total s t) in
    let above : text_le t s ≡ true = ground (arith, e, f, text_total s t) in
    let same_total : m ≡ n = ground (arith, e, f, text_total s t) in
    λ k. (same_id k, text_antisym s t below above k, same_total k)

row_order : RowOrder row_le
row_order = record {
  total = λ (i, s, m) (j, t, n). ground (arith, text_total s t);
  antisym = λ (i, s, m) (j, t, n) e f. row_antisym i j s t m n e f;
  transitive = λ (i, s, m) (j, t, n) (k, u, o) e f. ground (
    arith,
    e,
    f,
    text_trans s t u,
    text_trans u t s,
    text_trans t u s,
    text_trans u s t,
    text_trans t s u,
    text_trans s u t,
    text_total s t,
    text_total t u,
  );
}

prepare_batch_data-perm_example :
    prepare_batch_data row_le (((7, "2026-01-02"), 1) ∷ ((2, "2026-01-02"), 4) ∷ [])
    ≡ prepare_batch_data row_le (((2, "2026-01-02"), 4) ∷ ((7, "2026-01-02"), 1) ∷ [])
prepare_batch_data-perm_example = prepare_batch_data-perm row_le row_order (Permᴰ.swap refl refl)
