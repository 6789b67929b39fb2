-- ===== src/Recurrence/Shift/Shifted.antt =====
-- What a map holds after the fields of some names were shifted.
use open_community_groups.Prelude.{
  ◌≡◌, refl, sym, ap, ◌∙◌, String, false, some, List, [], ◌∷◌, ◌==◌, string_eq, arith, count, inl,
  inr, contains, Bool-cases,
}
use open_community_groups.Prelude.Result.{Result, ok, first_ok}
use open_community_groups.Recurrence.Json.{Value, string, Fields, get, update}
use open_community_groups.Recurrence.Json.Lookup.{get-update_other, get-update_self}
use open_community_groups.Recurrence.Shift.{
  Zones, shift_fields, shift_local_field, shift_local_text, parse_local_datetime,
}
use open_community_groups.Recurrence.Calendar.{Chrono, NaiveDateTime, TimeDelta, Stop}

module _ (f : Value → Result Stop Value) (k : String) where
  pub shift_fields_other :
      (names : List String) (m m' : Fields)
      → contains names k ≡ false
      → shift_fields f names m ≡ ok m'
      → get k m' ≡ get k m
  unfolding shift_fields
  shift_fields_other [] m m' h e = ground (arith, e)
  shift_fields_other (x ∷ names) m m' h e =
      let (m1, rest, first) = first_ok (update x f m) (λ m1. shift_fields f names m1) e in
      shift_fields_other names m1 m' (ground (arith, h)) rest
      ∙ get-update_other f x k m m1 (ground (arith, h)) first

  count-zero : (names : List String) → count (λ x. x == k) names ≡ 0 → contains names k ≡ false
  count-zero [] h = refl
  count-zero (x ∷ names) h = ground (arith, h, count-zero names)

  -- A name that stands once among the names has its field changed once.
  pub shift_fields_self :
      (names : List String) (m m' : Fields) (v : Value)
      → count (λ x. x == k) names ≡ 1
      → shift_fields f names m ≡ ok m'
      → get k m ≡ some v
      → (u : Value) × (f v ≡ ok u) × (get k m' ≡ some u)
  unfolding shift_fields
  shift_fields_self [] m m' v h e g = absurd (omega arith)
  shift_fields_self (x ∷ names) m m' v h e g =
      let (m1, rest, first) = first_ok (update x f m) (λ m1. shift_fields f names m1) e in
      elim (Bool-cases (x == k)) [
        | inl here ↦
            let (u, a, b) =
              get-update_self f x m m1 v first
                (ap (λ j. get j m) ((string_eq.same_exact x k).1 here) ∙ g) in
            (
              u,
              a,
              shift_fields_other names m1 m' (count-zero names (ground (arith, h, here))) rest
                  ∙ (ap (λ j. get j m1) (sym ((string_eq.same_exact x k).1 here)) ∙ b),
            )
        | inr there ↦
            shift_fields_self names m1 m' v (ground (arith, h, there)) rest
              (get-update_other f x k m m1 there first ∙ g)
      ]

-- A text that is a local time is shifted to the text of the sum.
pub shift_local_field_lem :
    (c : Chrono) (z : Zones) (delta : TimeDelta) (raw : String) (t t' : NaiveDateTime)
    → (raw == "") ≡ false
    → z.parse_local raw ≡ some t
    → c.add t delta ≡ some t'
    → shift_local_field c z delta (string raw) ≡ ok (string (z.format_local t'))
unfolding shift_local_field shift_local_text parse_local_datetime
shift_local_field_lem c z delta raw t t' nonempty parsed sum = rw (nonempty, parsed, sum)
