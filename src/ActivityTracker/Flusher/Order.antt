-- ===== src/ActivityTracker/Flusher/Order.antt =====
-- The order of the rows does not depend on the order in which a map lists its entries.
use mathlib.Core.List.{Permᴰ}
use open_community_groups.Prelude.{
  ℕ, ◌≡◌, ◌∙◌, refl, ap, sym, ◌⊎◌, inl, inr, Bool, true, false, List, [], ◌∷◌, arith, Bool-cases,
}
use open_community_groups.ActivityTracker.Batches.{Key, Totals}
use open_community_groups.ActivityTracker.Flusher.{Row, rows, insert, sort, prepare_batch_data}

-- A total order of rows.
pub record RowOrder (le : Row → Row → Bool) : Type 0 where
  pub total : (x y : Row) → (le x y ≡ true) ⊎ (le y x ≡ true)
  pub antisym : (x y : Row) → le x y ≡ true → le y x ≡ true → x ≡ y
  pub transitive : (x y z : Row) → le x y ≡ true → le y z ≡ true → le x z ≡ true

abbrev row : Key × ℕ → Row
row k = (k.0.0, k.0.1, k.1)

module _ (le : Row → Row → Bool) (order : RowOrder le) where
  insert_comm_le :
      (x y : Row) (rs : List Row)
      → le x y ≡ true
      → le y x ≡ false
      → insert le x (insert le y rs) ≡ insert le y (insert le x rs)
  insert_comm_le x y [] e f = ground (arith, e, f)
  insert_comm_le x y (r ∷ rs) e f =
      ground
        (arith, e, f, order.transitive x y r, order.transitive y r x, insert_comm_le x y rs e f)

  insert_comm :
      (x y : Row) (rs : List Row) → insert le x (insert le y rs) ≡ insert le y (insert le x rs)
  insert_comm x y rs = elim (Bool-cases (le x y)) [
    | inl e ↦ elim (Bool-cases (le y x)) [
      | inl f ↦
          let p = order.antisym x y e f in
          ap (λ z. insert le z (insert le y rs)) p ∙ ap (λ z. insert le y (insert le z rs)) (sym p)
      | inr f ↦ insert_comm_le x y rs e f
    ]
    | inr e ↦ elim (Bool-cases (le y x)) [
      | inl f ↦ sym (insert_comm_le y x rs f e)
      | inr f ↦ absurd (ground (arith, e, f, order.total x y))
    ]
  ]

  -- A batch gives the same rows, in the same order, however the map lists its entries, if rows are
  -- totally ordered.
  pub prepare_batch_data-perm :
      {m m' : Totals} → Permᴰ m m' → prepare_batch_data le m ≡ prepare_batch_data le m'
  unfolding prepare_batch_data
  prepare_batch_data-perm Permᴰ.nil = refl
  prepare_batch_data-perm (Permᴰ.cons e p) =
      λ i. insert le (row (e i)) (prepare_batch_data-perm p i)
  prepare_batch_data-perm (Permᴰ.swap {l} e f) =
      insert_comm _ _ _ ∙ (λ i. insert le (row (f i)) (insert le (row (e i)) (sort le (rows l))))
  prepare_batch_data-perm (Permᴰ.trans p q) = prepare_batch_data-perm p ∙ prepare_batch_data-perm q
