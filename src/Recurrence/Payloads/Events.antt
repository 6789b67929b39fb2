-- ===== src/Recurrence/Payloads/Events.antt =====
-- The events of a series that `from_event` makes.
use mathlib.Core.Path.{subst}
use open_community_groups.Prelude.{
  ℕ, ◌≡◌, refl, ap, sym, ◌∙◌, ◌≤◌, String, false, Option, none, some, List, [], ◌∷◌, map, All, ◌==◌,
  string_eq, arith, contains, Option-cases, inl, inr, unwrap_or,
}
use open_community_groups.Prelude.Result.{Result, ok, err, ◌>>=◌, Result-cases, ok_injective}
use open_community_groups.Recurrence.Calendar.{Chrono, NaiveDateTime}
use open_community_groups.Recurrence.Json.{Value, string, object, Fields, get}
use open_community_groups.Recurrence.Shift.{Zones}
use open_community_groups.Recurrence.Payloads.{
  Event, RecurrenceRequest, RecurringEventPayloads, shift_payload, build_occurrence_payload,
  build_payloads, payloads_of, payloads_for, occurrence_start_times, recurrence_request, from_event,
  recurrence_metadata, request_for, request_of, check_occurrences, just_once, weekly, biweekly,
  monthly, EventRecurrencePattern, max_recurring_additional_occurrences,
}
use open_community_groups.Recurrence.Payloads.Frame.{
  shifted_names, shift_payload_other, shift_payload_starts,
}

-- The field of an event's payload.
abbrev pub field_of : String → Value → Option Value
field_of k (object m) = get k m
field_of k _ = none

module _ (c : Chrono) (z : Zones) (new_v4 : ℕ → String) (m : Fields) (r : RecurrenceRequest) where
  -- The payloads, one for each occurrence, by a fact about each that succeeds.
  build_payloads-map :
      {B : Type 0} (f : Value → B) (g : NaiveDateTime → B) (P : NaiveDateTime → Type 0)
      → ((o : NaiveDateTime) (n : ℕ) (x : Fields × ℕ)
          → P o
          → shift_payload c z new_v4 r.base_starts_at o r.timezone n m ≡ ok x
          → f (object x.0) ≡ g o)
      → (os : List NaiveDateTime) (n : ℕ) (vs : List Value) → All P os
      → build_payloads c z new_v4 (object m) r os n ≡ ok vs
      → map f vs ≡ map g os
  unfolding build_payloads build_occurrence_payload
  build_payloads-map f g P each [] n vs a e = ap (map f) (sym (ok_injective e))
  build_payloads-map f g P each (o ∷ os) n vs (a, later) e =
      elim (Result-cases (shift_payload c z new_v4 r.base_starts_at o r.timezone n m)) [
        | inr (x, q) ↦ absurd (ground (arith, q, e))
        | inl (x, q) ↦ elim (Result-cases (build_payloads c z new_v4 (object m) r os x.1)) [
          | inr (y, p) ↦ absurd (ground (arith, q, p, e))
          | inl (ws, p) ↦
              ground
                (arith, q, p, e, each o n x a q, build_payloads-map f g P each os x.1 ws later p)
        ]
      ]

map_const :
    {A B C : Type 0} (f : A → B) (b : B) (xs : List A) (ys : List C)
    → map f xs ≡ map (λ y. b) ys
    → All (λ x. f x ≡ b) xs
map_const f b [] ys e = tt
map_const f b (x ∷ xs) [] e = cc
map_const f b (x ∷ xs) (y ∷ ys) e = (cc, map_const f b xs ys cc)

All-trivial : {A : Type 0} (xs : List A) → All (λ x. Unit {0}) xs
All-trivial [] = tt
All-trivial (x ∷ xs) = (tt, All-trivial xs)

ok_some :
    {E A : Type 0} (result : Result E A) (r : A)
    → (do x ← result; ok (some x)) ≡ ok (some r)
    → result ≡ ok r
ok_some (ok x) r e = cc
ok_some (err x) r e = cc

module _ (c : Chrono) (z : Zones) where
  check_occurrences_lem :
      (n k : ℕ)
      → check_occurrences c z n ≡ ok k
      → (1 ≤ k) × (k ≤ max_recurring_additional_occurrences)
  unfolding check_occurrences
  check_occurrences_lem n k e = ground (arith, e)

  -- A request is for the form's own start and zone, and for one to twelve occurrences.
  request_of_lem :
      (pattern : EventRecurrencePattern) (event : Event) (r : RecurrenceRequest)
      → request_of c z pattern event ≡ ok r
      → (event.starts_at ≡ some r.base_starts_at)
        × (1 ≤ r.additional_occurrences)
        × (r.additional_occurrences ≤ max_recurring_additional_occurrences)
  unfolding request_of check_occurrences
  request_of_lem pattern event r e = ground (arith, e)

  request_for_lem :
      (pattern : EventRecurrencePattern) (event : Event) (r : RecurrenceRequest)
      → request_for c z pattern event ≡ ok (some r)
      → (event.starts_at ≡ some r.base_starts_at)
        × (1 ≤ r.additional_occurrences)
        × (r.additional_occurrences ≤ max_recurring_additional_occurrences)
  unfolding request_for
  request_for_lem just_once event r e = cc
  request_for_lem weekly event r e =
      request_of_lem weekly event r (ok_some (request_of c z weekly event) r e)
  request_for_lem biweekly event r e =
      request_of_lem biweekly event r (ok_some (request_of c z biweekly event) r e)
  request_for_lem monthly event r e =
      request_of_lem monthly event r (ok_some (request_of c z monthly event) r e)

  pub recurrence_request_lem :
      (event : Event) (r : RecurrenceRequest)
      → recurrence_request c z event ≡ ok (some r)
      → (event.starts_at ≡ some r.base_starts_at)
        × (1 ≤ r.additional_occurrences)
        × (r.additional_occurrences ≤ max_recurring_additional_occurrences)
  unfolding recurrence_request
  recurrence_request_lem event r e =
      request_for_lem (unwrap_or just_once event.recurrence_pattern) event r e

  module _ (new_v4 : ℕ → String) where
    -- What `from_event` is made of when it returns a series.
    from_event_parts :
        (event : Event) (base : Value) (ps : RecurringEventPayloads)
        → from_event c z new_v4 event base ≡ some (ok (some ps))
        → (r : RecurrenceRequest) × (os : List NaiveDateTime) × (generated : List Value)
          × (recurrence_request c z event ≡ ok (some r))
          × (occurrence_start_times c z r ≡ some (ok os))
          × (build_payloads c z new_v4 base r os 0 ≡ ok generated)
          × (ps.events ≡ base ∷ generated)
    unfolding from_event payloads_for payloads_of
    from_event_parts event base ps e = elim (Result-cases (recurrence_request c z event)) [
      | inr (x, q) ↦ absurd (ground (arith, q, e))
      | inl (none, q) ↦ absurd (ground (arith, q, e))
      | inl (some r, q) ↦ elim (Option-cases (occurrence_start_times c z r)) [
        | inl p ↦ absurd (ground (arith, q, p, e))
        | inr (err x, p) ↦ absurd (ground (arith, q, p, e))
        | inr (ok os, p) ↦ elim (Result-cases (build_payloads c z new_v4 base r os 0)) [
          | inr (x, g) ↦ absurd (ground (arith, q, p, g, e))
          | inl (generated, g) ↦ elim (Result-cases (recurrence_metadata c z r)) [
            | inr (x, w) ↦ absurd (ground (arith, q, p, g, w, e))
            | inl (meta, w) ↦ (r, os, generated, q, p, g, ground (arith, q, p, g, w, e))
          ]
        ]
      ]
    ]

    -- For a recurring event whose payload gives the start of the form, the series that `from_event`
    -- returns is that of a request for one to twelve additional occurrences: its first event starts
    -- at the start of the form, and the others at the occurrences of the request, in their order.
    -- That is where chrono parses the start, and where adding the difference between an occurrence and
    -- the start to the start gives the occurrence.
    pub from_event-starts :
        (event : Event) (base : NaiveDateTime) (raw : String) (m : Fields)
        (ps : RecurringEventPayloads) (r : RecurrenceRequest) (os : List NaiveDateTime)
        → event.starts_at ≡ some base
        → (raw == "") ≡ false
        → z.parse_local raw ≡ some base
        → get "starts_at" m ≡ some (string raw)
        → recurrence_request c z event ≡ ok (some r)
        → occurrence_start_times c z r ≡ some (ok os)
        → All (λ o. c.add base (c.sub o base) ≡ some o) os
        → from_event c z new_v4 event (object m) ≡ some (ok (some ps))
        → (1 ≤ r.additional_occurrences)
          × (r.additional_occurrences ≤ max_recurring_additional_occurrences)
          × (map (field_of "starts_at") ps.events
              ≡ some (string raw) ∷ map (λ o. some (string (z.format_local o))) os)
    from_event-starts event base raw m ps r os starts nonempty parsed start asked found differ e =
        let (r', os', generated, q, p, g, shape) = from_event_parts event (object m) ps e in
        let (given, low, high) = recurrence_request_lem event r asked in
        let same : r.base_starts_at ≡ base = cc in
        let this : r' ≡ r = cc in
        let these : os' ≡ os = cc in
        let kept = field_of "starts_at" in
        let later =
          build_payloads-map c z new_v4 m r kept (λ o. some (string (z.format_local o)))
            (λ o. c.add r.base_starts_at (c.sub o r.base_starts_at) ≡ some o)
            (λ o n x add_sub built.
              shift_payload_starts c z new_v4 r.base_starts_at o r.timezone raw n m x add_sub
                nonempty (ground (arith, same, parsed)) start built)
            os 0 generated
            (subst (λ b. All (λ o. c.add b (c.sub o b) ≡ some o) os) (sym same) differ)
            (ground (arith, this, these, g)) in
        (low, high, ap (map kept) shape ∙ ground (arith, start, later))

    -- In a series that `from_event` returns, a field that recurrence does not shift has in every event
    -- the value of the base payload.
    pub from_event-unchanged :
        (event : Event) (m : Fields) (ps : RecurringEventPayloads) (k : String)
        → contains shifted_names k ≡ false
        → from_event c z new_v4 event (object m) ≡ some (ok (some ps))
        → All (λ v. field_of k v ≡ get k m) ps.events
    from_event-unchanged event m ps k other e =
        let (r, os, generated, q, p, g, shape) = from_event_parts event (object m) ps e in
        subst (All (λ v. field_of k v ≡ get k m)) (sym shape) (
          refl,
          map_const (field_of k) (get k m) generated os (
              build_payloads-map c z new_v4 m r (field_of k) (λ o. get k m) (λ o. Unit)
                (λ o n x a built.
                  shift_payload_other c z new_v4 r.base_starts_at o r.timezone k n m x other built)
                os 0 generated (All-trivial os) g),
        )
