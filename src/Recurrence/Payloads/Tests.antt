-- ===== src/Recurrence/Payloads/Tests.antt =====
-- A weekly event in January 2026.
use open_community_groups.Prelude.{
  ℕ, ◌+◌, ◌-◌, ◌*◌, ◌≤◌, ◌≡◌, refl, String, true, Option, none, some, [], ◌∷◌, map, All,
  if◌then◌else◌, ◌==◌, string_eq, arith,
}
use open_community_groups.Prelude.Text.{display}
use open_community_groups.Prelude.Result.{Result, ok}
use open_community_groups.Recurrence.Calendar.{
  NaiveDateTime, ymd, Chrono, Stop, IsGregorian, is_date, weekday_of, is_leap, month_length,
}
use open_community_groups.Recurrence.Json.{
  Value, string, array, object, nil, cons, Fields, end, field, get, insert, update, for_each,
  number,
}
use open_community_groups.Recurrence.Shift.{
  Zones, single, parse_local_datetime, shifted_by, shift_local_text, shift_local_field,
  shift_fields, shift_object_local_fields, shift_object_utc_fields,
}
use open_community_groups.Recurrence.Refresh.{
  refresh_items, refresh_array, refresh_field, refresh_id, refresh_discount_code_ids,
  refresh_ticket_type, refresh_ticketing_ids,
}
use open_community_groups.Recurrence.Payloads.{
  Event, RecurrenceRequest, RecurringEventPayloads, weekly, shift_session_dates,
  recurrence_db_value, shift_discount_dates, shift_ticket_dates, shift_payload,
  build_occurrence_payload, build_payloads, every_weeks, occurrence_start_times, check_occurrences,
  request_of, request_for, recurrence_request, recurrence_metadata, payloads_of, payloads_for,
  from_event, max_recurring_additional_occurrences,
}
use open_community_groups.Recurrence.Payloads.Events.{
  field_of, from_event-starts, from_event-unchanged,
}
use open_community_groups.Recurrence.Payloads.Returns.{from_event-returns}

-- Within a month, days are added to the day.
abbrev chrono : Chrono
chrono = record {
  from_ymd_opt = λ y m d. if is_date y m d then some (ymd y m d) else none;
  weekday = weekday_of;
  weeks = λ n. n * 7;
  add =
      λ t d. some (record { date = ymd t.date.year t.date.month (t.date.day + d); time = t.time });
  sub = λ t s. t.date.day - s.date.day;
}

gregorian : IsGregorian chrono
gregorian = record { dates = λ y m d. refl; weekdays = λ t. refl }

abbrev day : ℕ → NaiveDateTime
day d = record { date = ymd 2026 1 d; time = 18 }

abbrev zones : Zones
zones = record {
  parse_tz = λ s. some s;
  parse_local = λ s. if s == "2026-01-05T18:00" then some (day 5) else none;
  format_local = λ t. display t.date.day;
  parse_rfc3339 = λ s. none;
  to_rfc3339 = λ s. "";
  naive_local = λ s t. day t;
  from_local = λ s t. single t.date.day;
  add_utc = λ t d. some (t + d);
}

abbrev event : Event
event = record {
  recurrence_pattern = some weekly;
  recurrence_additional_occurrences = some 2;
  starts_at = some (day 5);
  timezone = "Europe/Madrid";
}

abbrev payload : Fields
payload = field "name" (string "Meetup") (
    field "starts_at" (string "2026-01-05T18:00")
      (field "discount_codes" (array (cons (object (field "code" (string "EARLY") end)) nil)) end))

abbrev new_v4 : ℕ → String
new_v4 n = display n

abbrev occurrence : String → String → Value
occurrence start id = object (
    field "name" (string "Meetup") (
      field "starts_at" (string start) (
        field "discount_codes"
          (array (
            cons
              (object
                (field "code" (string "EARLY") (field "event_discount_code_id" (string id) end)))
              nil))
          end)))

abbrev payloads : RecurringEventPayloads
payloads = record {
  events = object payload ∷ occurrence "12" "0" ∷ occurrence "19" "1" ∷ [];
  recurrence =
      object (field "additional_occurrences" (number "2") (field "pattern" (string "weekly") end));
}

abbrev request : RecurrenceRequest
request = record {
  additional_occurrences = 2;
  base_starts_at = day 5;
  pattern = weekly;
  timezone = "Europe/Madrid";
}

request_lem : recurrence_request chrono zones event ≡ ok (some request)
unfolding recurrence_request request_for request_of check_occurrences
request_lem = refl

starts_lem : occurrence_start_times chrono zones request ≡ some (ok (day 12 ∷ day 19 ∷ []))
unfolding occurrence_start_times every_weeks shifted_by
starts_lem = refl

-- Each occurrence has its own start and its own discount code.
payloads_lem : from_event chrono zones new_v4 event (object payload) ≡ some (ok (some payloads))
unfolding from_event payloads_for payloads_of recurrence_metadata recurrence_db_value
    recurrence_request request_for request_of check_occurrences occurrence_start_times every_weeks
    build_payloads build_occurrence_payload shift_payload shift_ticket_dates shift_discount_dates
    shift_session_dates refresh_ticketing_ids refresh_ticket_type refresh_discount_code_ids
    refresh_id refresh_field refresh_array refresh_items get insert update for_each
    parse_local_datetime shifted_by shift_local_text shift_local_field shift_fields
    shift_object_local_fields shift_object_utc_fields display
payloads_lem = refl

start_lem : get "starts_at" payload ≡ some (string "2026-01-05T18:00")
unfolding get
start_lem = refl

is_date_lem : is_date 2026 1 5 ≡ true
unfolding is_leap month_length
is_date_lem = refl

from_event-starts_example :
    (1 ≤ 2)
    × (2 ≤ max_recurring_additional_occurrences)
    × (map (field_of "starts_at") payloads.events
        ≡ some (string "2026-01-05T18:00") ∷ some (string "12") ∷ some (string "19") ∷ [])
unfolding display
from_event-starts_example =
    from_event-starts chrono zones new_v4 event (day 5) "2026-01-05T18:00" payload payloads request
      (day 12 ∷ day 19 ∷ []) refl refl refl start_lem request_lem starts_lem (refl, (refl, tt))
      payloads_lem

from_event-unchanged_example : All (λ v. field_of "name" v ≡ get "name" payload) payloads.events
from_event-unchanged_example =
    from_event-unchanged chrono zones new_v4 event payload payloads "name" refl payloads_lem

from_event-returns_example :
    (result : Result Stop (Option RecurringEventPayloads)) × (from_event chrono zones new_v4 event
        (object payload)
      ≡ some result)
from_event-returns_example =
    from_event-returns chrono zones new_v4 event (day 5) (object payload) gregorian refl is_date_lem
      (omega arith)
