-- ===== src/Recurrence/Payloads/Frame.antt =====
-- What a payload shifted to an occurrence has in common with the base payload.
use open_community_groups.Prelude.{
  ℕ, ◌≡◌, refl, ap, sym, String, false, some, List, ◌∷◌, ◌==◌, string_eq, arith, inl, inr, ◌∙◌,
  contains, Option-cases,
}
use open_community_groups.Prelude.Result.{ok, first_ok, ok_injective}
use open_community_groups.Recurrence.Calendar.{Chrono, NaiveDateTime}
use open_community_groups.Recurrence.Json.{Value, string, Fields, get, update}
use open_community_groups.Recurrence.Json.Lookup.{get-insert, get-update_other}
use open_community_groups.Recurrence.Shift.{Zones, shift_local_field, shift_object_local_fields}
use open_community_groups.Recurrence.Shift.Shifted.{
  shift_local_field_lem, shift_fields_other, shift_fields_self,
}
use open_community_groups.Recurrence.Refresh.{
  refresh_field, refresh_discount_code_ids, refresh_ticketing_ids,
}
use open_community_groups.Recurrence.Payloads.{
  event_local_datetime_field_names, shift_payload, shift_session_dates, shift_discount_dates,
  shift_ticket_dates,
}

refresh_field_other :
    (j k : String) (f : ℕ → Value → Value × ℕ) (n : ℕ) (m : Fields)
    → (j == k) ≡ false
    → get k (refresh_field j f n m).0 ≡ get k m
unfolding refresh_field
refresh_field_other j k f n m d = elim (Option-cases (get j m)) [
  | inl e ↦ ground (arith, e)
  | inr (v, e) ↦ ground (arith, e, d, get-insert j k (f n v).0 m)
]

-- The fields that differ between the events of a series.
abbrev pub shifted_names : List String
shifted_names = "sessions" ∷ "discount_codes" ∷ "ticket_types" ∷ event_local_datetime_field_names

module _ (c : Chrono) (z : Zones) (new_v4 : ℕ → String) (base o : NaiveDateTime)
    (timezone : String) where
  -- The steps of `shift_payload` that succeeded.
  shift_steps :
      (n : ℕ) (m : Fields) (r : Fields × ℕ)
      → shift_payload c z new_v4 base o timezone n m ≡ ok r
      → (m1 : Fields) × (m2 : Fields) × (m3 : Fields) × (m5 : Fields) × (n4 : ℕ)
        × (shift_object_local_fields c z event_local_datetime_field_names (c.sub o base) m ≡ ok m1)
        × (update "sessions" (shift_session_dates c z (c.sub o base)) m1 ≡ ok m2)
        × (update "discount_codes" (shift_discount_dates c z timezone (c.sub o base)) m2 ≡ ok m3)
        × (update "ticket_types"
              (shift_ticket_dates c z timezone (c.sub o base))
              (refresh_field "discount_codes" (refresh_discount_code_ids new_v4) n m3).0
            ≡ ok m5)
        × (r.0 ≡ (refresh_field "ticket_types" (refresh_ticketing_ids new_v4) n4 m5).0)
  unfolding shift_payload
  shift_steps n m r e =
      let (m1, e1, f1) =
        first_ok (shift_object_local_fields c z event_local_datetime_field_names (c.sub o base) m) _
          e in
      let (m2, e2, f2) =
        first_ok (update "sessions" (shift_session_dates c z (c.sub o base)) m1) _ e1 in
      let (m3, e3, f3) =
        first_ok (update "discount_codes" (shift_discount_dates c z timezone (c.sub o base)) m2) _
          e2 in
      let (m5, e5, f5) =
        first_ok
          (update "ticket_types" (shift_ticket_dates c z timezone (c.sub o base))
            (refresh_field "discount_codes" (refresh_discount_code_ids new_v4) n m3).0)
          _ e3 in
      (m1, m2, m3, m5, _, f1, f2, f3, f5, ap (λ (x : Fields × ℕ). x.0) (sym (ok_injective e5)))

  -- The steps after the first one keep the other fields.
  after_local :
      (k : String) (n : ℕ) (m : Fields) (r : Fields × ℕ)
      → ("sessions" == k) ≡ false
      → ("discount_codes" == k) ≡ false
      → ("ticket_types" == k) ≡ false
      → shift_payload c z new_v4 base o timezone n m ≡ ok r
      → (m1 : Fields) × (shift_object_local_fields c z event_local_datetime_field_names
            (c.sub o base)
            m
          ≡ ok m1)
        × (get k r.0 ≡ get k m1)
  after_local k n m r hs hd ht e =
      let (m1, m2, m3, m5, n4, f1, f2, f3, f5, last) = shift_steps n m r e in
      (
        m1,
        f1,
        ap (get k) last
            ∙ refresh_field_other "ticket_types" k (refresh_ticketing_ids new_v4) n4 m5 ht
            ∙ get-update_other _ "ticket_types" k _ m5 ht f5
            ∙ refresh_field_other "discount_codes" k (refresh_discount_code_ids new_v4) n m3 hd
            ∙ get-update_other _ "discount_codes" k m2 m3 hd f3
            ∙ get-update_other _ "sessions" k m1 m2 hs f2,
      )

  pub shift_payload_other :
      (k : String) (n : ℕ) (m : Fields) (r : Fields × ℕ)
      → contains shifted_names k ≡ false
      → shift_payload c z new_v4 base o timezone n m ≡ ok r
      → get k r.0 ≡ get k m
  unfolding shift_object_local_fields
  shift_payload_other k n m r h e =
      let (m1, f1, same) =
        after_local k n m r (ground (arith, h)) (ground (arith, h)) (ground (arith, h)) e in
      same ∙ shift_fields_other _ k event_local_datetime_field_names m m1 (ground (arith, h)) f1

  -- The start of the shifted payload is that of the occurrence, if adding the difference of two times
  -- to the one gives the other.
  pub shift_payload_starts :
      (raw : String) (n : ℕ) (m : Fields) (r : Fields × ℕ)
      → c.add base (c.sub o base) ≡ some o
      → (raw == "") ≡ false
      → z.parse_local raw ≡ some base
      → get "starts_at" m ≡ some (string raw)
      → shift_payload c z new_v4 base o timezone n m ≡ ok r
      → get "starts_at" r.0 ≡ some (string (z.format_local o))
  unfolding shift_object_local_fields
  shift_payload_starts raw n m r add_sub nonempty parsed start e =
      let (m1, f1, same) = after_local "starts_at" n m r refl refl refl e in
      let (u, a, b) =
        shift_fields_self (shift_local_field c z (c.sub o base)) "starts_at"
          event_local_datetime_field_names m m1 (string raw) refl f1 start in
      same
      ∙ (b
          ∙ ap some (
              sym (
                ok_injective (
                  sym (shift_local_field_lem c z (c.sub o base) raw base o nonempty parsed add_sub)
                  ∙ a))))
