-- ===== src/Recurrence/Payloads/Returns.antt =====
-- The outcome of `from_event`: the loop over the months of a monthly series ends.
use open_community_groups.Prelude.{
  ℕ, ◌+◌, ◌*◌, ◌≤◌, ◌≡◌, String, true, Option, none, some, arith, refl, List, [], Option-cases, inl,
  inr,
}
use open_community_groups.Prelude.Result.{Result, ok, Result-cases}
use open_community_groups.Recurrence.Calendar.{
  Chrono, NaiveDateTime, Stop, IsGregorian, is_date, max_year,
}
use open_community_groups.Recurrence.Json.{Value}
use open_community_groups.Recurrence.Monthly.Series.{month_of}
use open_community_groups.Recurrence.Monthly.Complete.{monthly_occurrences_start_times-Repeats}
use open_community_groups.Recurrence.Shift.{Zones}
use open_community_groups.Recurrence.Payloads.{
  EventRecurrencePattern, Event, RecurrenceRequest, RecurringEventPayloads, just_once, weekly,
  biweekly, monthly, every_weeks, monthly_times, occurrence_start_times, recurrence_request,
  payloads_for, from_event,
}
use open_community_groups.Recurrence.Payloads.Events.{recurrence_request_lem}

module _ (c : Chrono) (z : Zones) where
  starts-returns :
      (r : RecurrenceRequest) (pattern : EventRecurrencePattern)
      → r.pattern ≡ pattern
      → IsGregorian c
      → is_date r.base_starts_at.date.year r.base_starts_at.date.month r.base_starts_at.date.day
        ≡ true
      → month_of r.base_starts_at.date + 4 * r.additional_occurrences ≤ max_year * 12 + 12
      → (start_times : Result Stop (List NaiveDateTime)) × (occurrence_start_times c z r
          ≡ some start_times)
  unfolding occurrence_start_times monthly_times
  starts-returns r just_once p gregorian date range = (ok [], ground (arith, p))
  starts-returns r weekly p gregorian date range =
      (every_weeks c z 1 r.base_starts_at r.additional_occurrences 1, ground (arith, p))
  starts-returns r biweekly p gregorian date range =
      (every_weeks c z 2 r.base_starts_at r.additional_occurrences 1, ground (arith, p))
  starts-returns r monthly p gregorian date range =
      let (os, e, _, _) =
        monthly_occurrences_start_times-Repeats c r.base_starts_at r.additional_occurrences
          (4 * r.additional_occurrences) gregorian date (omega arith) range in
      (ok os, ground (arith, p, e))

  -- If the start of the form is a date of the calendar, four years before the last one of chrono or
  -- earlier, the loop over the months ends: the outcome of `from_event` is nothing, a series, an
  -- error, or the panic of an addition that leaves chrono's range.
  pub from_event-returns :
      (new_v4 : ℕ → String) (event : Event) (start : NaiveDateTime) (base : Value)
      → IsGregorian c
      → event.starts_at ≡ some start
      → is_date start.date.year start.date.month start.date.day ≡ true
      → start.date.year + 4 ≤ max_year
      → (result : Result Stop (Option RecurringEventPayloads)) × (from_event c z new_v4 event base
          ≡ some result)
  unfolding from_event payloads_for recurrence_request
  from_event-returns new_v4 event start base gregorian starts date range =
      elim (Option-cases (from_event c z new_v4 event base)) [
        | inr (result, e) ↦ (result, e)
        | inl nothing ↦ elim (Result-cases (recurrence_request c z event)) [
          | inr (e, q) ↦ absurd (ground (arith, q, nothing))
          | inl (none, q) ↦ absurd (ground (arith, q, nothing))
          | inl (some r, q) ↦
              let (given, low, high) = recurrence_request_lem c z event r q in
              let same : r.base_starts_at ≡ start = cc in
              let (os, e) =
                starts-returns r r.pattern refl gregorian (ground (arith, same, date))
                  (ground (arith, same, date, range, high)) in
              absurd (ground (arith, q, e, nothing))
        ]
      ]
