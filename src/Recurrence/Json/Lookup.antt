-- ===== src/Recurrence/Json/Lookup.antt =====
-- What a map holds after an update or an insertion.
use text.Mathlib.TextEquality.{eq_iff}
use open_community_groups.Prelude.{
  String, ◌≡◌, refl, false, some, if◌then◌else◌, ◌==◌, string_eq, arith, Bool-cases, inl, inr,
}
use open_community_groups.Prelude.Result.{Result, ok, Result-cases}
use open_community_groups.Recurrence.Calendar.{Stop}
use open_community_groups.Recurrence.Json.{Value, Fields, end, field, get, insert, update}

pub get-insert :
    (j k : String) (v : Value) (m : Fields)
    → get k (insert j v m) ≡ (if j == k then some v else get k m)
unfolding get insert
get-insert j k v end = refl
get-insert j k v (field i u m) =
    ground (arith, eq_iff j k, eq_iff i k, eq_iff i j, get-insert j k v m)

module _ (f : Value → Result Stop Value) (j k : String) where
  pub get-update_other :
      (m m' : Fields) → (j == k) ≡ false → update j f m ≡ ok m' → get k m' ≡ get k m
  unfolding get update
  get-update_other end m' d e = ground (arith, e)
  get-update_other (field i v m) m' d e = elim (Bool-cases (i == j)) [
    | inl here ↦ elim (Result-cases (f v)) [
      | inl (u, q) ↦ ground (arith, here, q, e, d, eq_iff i k, eq_iff i j, eq_iff j k)
      | inr (x, q) ↦ absurd (ground (arith, here, q, e))
    ]
    | inr there ↦ elim (Result-cases (update j f m)) [
      | inl (r, q) ↦ ground (arith, there, q, e, get-update_other m r d q)
      | inr (x, q) ↦ absurd (ground (arith, there, q, e))
    ]
  ]

module _ (f : Value → Result Stop Value) (k : String) where
  pub get-update_self :
      (m m' : Fields) (v : Value)
      → update k f m ≡ ok m'
      → get k m ≡ some v
      → (u : Value) × (f v ≡ ok u) × (get k m' ≡ some u)
  unfolding get update
  get-update_self end m' v e h = absurd (ground (arith, h))
  get-update_self (field i v' m) m' v e h = elim (Bool-cases (i == k)) [
    | inl here ↦ elim (Result-cases (f v')) [
      | inl (u, q) ↦ (u, ground (arith, here, q, e, h), ground (arith, here, q, e, h))
      | inr (x, q) ↦ absurd (ground (arith, here, q, e))
    ]
    | inr there ↦ elim (Result-cases (update k f m)) [
      | inl (r, q) ↦
          let (u, a, b) = get-update_self m r v q (ground (arith, there, h)) in
          (u, a, ground (arith, there, q, e, b))
      | inr (x, q) ↦ absurd (ground (arith, there, q, e))
    ]
  ]
