-- ===== src/Recurrence/Payloads.antt =====
-- `RecurringEventPayloads`: the payloads of the events of a series.
pub mod Frame
pub mod Events
pub mod Returns
mod Tests
use open_community_groups.Prelude.{
  ℕ, zero, suc, ◌+◌, ◌*◌, ◌≤◌, String, Bool, true, false, not, ◌&&◌, Option, none, some, List, [],
  ◌∷◌, if◌then◌else◌, leb, unwrap_or,
}
use open_community_groups.Prelude.Text.{display}
use open_community_groups.Prelude.Result.{Result, ok, err, ◌>>=◌, ok_or}
use open_community_groups.Recurrence.Calendar.{Chrono, NaiveDateTime, TimeDelta, Stop, error}
use open_community_groups.Recurrence.Json.{
  Value, null, bool, number, string, array, object, Items, nil, cons, Fields, end, field, get,
  insert, update, for_each,
}
use open_community_groups.Recurrence.Refresh.{
  refresh_field, refresh_discount_code_ids, refresh_ticketing_ids,
}
use open_community_groups.Recurrence.Shift.{
  Zones, shifted_by, shift_object_local_fields, shift_object_utc_fields,
}
use open_community_groups.Recurrence.Monthly.{monthly_occurrences_start_times}

pub data EventRecurrencePattern : Type 0 where
  just_once weekly biweekly monthly : EventRecurrencePattern

-- `EventRecurrencePattern::recurrence_db_value`
recurrence_db_value : EventRecurrencePattern → Option String
recurrence_db_value just_once = none
recurrence_db_value biweekly = some "biweekly"
recurrence_db_value monthly = some "monthly"
recurrence_db_value weekly = some "weekly"

-- The fields of the form that recurrence uses. An `i32` is its 32 bits as a number.
pub record Event : Type 0 where
  pub recurrence_pattern : Option EventRecurrencePattern
  pub recurrence_additional_occurrences : Option ℕ
  pub starts_at : Option NaiveDateTime
  pub timezone : String

pub record RecurrenceRequest : Type 0 where
  pub additional_occurrences : ℕ
  pub base_starts_at : NaiveDateTime
  pub pattern : EventRecurrencePattern
  pub timezone : String

pub record RecurringEventPayloads : Type 0 where
  pub events : List Value
  pub recurrence : Value

abbrev pub event_local_datetime_field_names : List String
event_local_datetime_field_names =
    "cfs_ends_at" ∷ "cfs_starts_at" ∷ "ends_at" ∷ "registration_ends_at" ∷ "registration_starts_at"
    ∷ "starts_at" ∷ []

abbrev pub start_end_field_names : List String
start_end_field_names = "ends_at" ∷ "starts_at" ∷ []

abbrev pub max_recurring_additional_occurrences : ℕ
max_recurring_additional_occurrences = 12

-- What is done to an object, or to the items of an array; other values are left alone.
abbrev in_object : (Fields → Result Stop Fields) → Value → Result Stop Value
in_object f (object m) = do m' ← f m; ok (object m')
in_object f v = ok v

abbrev in_array : (Value → Result Stop Value) → Value → Result Stop Value
in_array f (array vs) = do vs' ← for_each f vs; ok (array vs')
in_array f v = ok v

module _ (c : Chrono) (z : Zones) where
  shift_session_dates : TimeDelta → Value → Result Stop Value
  shift_session_dates delta =
      in_array (in_object (shift_object_local_fields c z start_end_field_names delta))

  shift_discount_dates : String → TimeDelta → Value → Result Stop Value
  shift_discount_dates timezone delta =
      in_array (in_object (shift_object_utc_fields c z timezone start_end_field_names delta))

  shift_ticket_dates : String → TimeDelta → Value → Result Stop Value
  unfolding shift_discount_dates
  shift_ticket_dates timezone delta =
      in_array (in_object (update "price_windows" (shift_discount_dates timezone delta)))

  module _ (new_v4 : ℕ → String) where
    pub shift_payload :
        NaiveDateTime → NaiveDateTime → String → ℕ → Fields → Result Stop (Fields × ℕ)
    unfolding shift_session_dates shift_discount_dates shift_ticket_dates refresh_field
        refresh_discount_code_ids refresh_ticketing_ids
    shift_payload base_starts_at occurrence_starts_at timezone n m = do
      let local_delta = c.sub occurrence_starts_at base_starts_at
      m1 ← shift_object_local_fields c z event_local_datetime_field_names local_delta m
      m2 ← update "sessions" (shift_session_dates local_delta) m1
      m3 ← update "discount_codes" (shift_discount_dates timezone local_delta) m2
      let (m4, n4) = refresh_field "discount_codes" (refresh_discount_code_ids new_v4) n m3
      m5 ← update "ticket_types" (shift_ticket_dates timezone local_delta) m4
      ok (refresh_field "ticket_types" (refresh_ticketing_ids new_v4) n4 m5)

    pub build_occurrence_payload :
        Value → NaiveDateTime → NaiveDateTime → String → ℕ → Result Stop (Value × ℕ)
    unfolding shift_payload
    build_occurrence_payload (object m) base_starts_at occurrence_starts_at timezone n = do
      shifted ← shift_payload base_starts_at occurrence_starts_at timezone n m
      ok (object shifted.0, shifted.1)
    build_occurrence_payload v base_starts_at occurrence_starts_at timezone n =
        err (error "event payload must be an object")

    -- The loop of `from_event` over the occurrences.
    pub build_payloads :
        Value → RecurrenceRequest → List NaiveDateTime → ℕ → Result Stop (List Value)
    unfolding build_occurrence_payload
    build_payloads base_payload r [] n = ok []
    build_payloads base_payload r (occurrence_starts_at ∷ occurrences) n = do
      built ←
          build_occurrence_payload base_payload r.base_starts_at occurrence_starts_at r.timezone n
      payloads ← build_payloads base_payload r occurrences built.1
      ok (built.0 ∷ payloads)

  -- So many occurrences from this index on, each `step` weeks after the one before.
  every_weeks : ℕ → NaiveDateTime → ℕ → ℕ → Result Stop (List NaiveDateTime)
  unfolding shifted_by
  every_weeks step base zero index = ok []
  every_weeks step base (suc left) index = do
    first ← shifted_by c z (c.weeks (index * step)) base
    rest ← every_weeks step base left (index + 1)
    ok (first ∷ rest)

  monthly_times : Option (List NaiveDateTime) → Option (Result Stop (List NaiveDateTime))
  monthly_times none = none
  monthly_times (some os) = some (ok os)

  -- `none` if the loop over the months has not ended within four months for each occurrence.
  pub occurrence_start_times : RecurrenceRequest → Option (Result Stop (List NaiveDateTime))
  unfolding every_weeks monthly_times
  occurrence_start_times r = elim r.pattern [
    | just_once ↦ some (ok [])
    | weekly ↦ some (every_weeks 1 r.base_starts_at r.additional_occurrences 1)
    | biweekly ↦ some (every_weeks 2 r.base_starts_at r.additional_occurrences 1)
    | monthly ↦ monthly_times (
        monthly_occurrences_start_times c (4 * r.additional_occurrences) r.base_starts_at
          r.additional_occurrences)
  ]

  check_occurrences : ℕ → Result Stop ℕ
  check_occurrences n =
      if leb 1 n && leb n max_recurring_additional_occurrences
      then ok n
      else err (error "recurrence_additional_occurrences must be between 1 and 12")

  -- `RecurrenceRequest::from_event` for a pattern other than a single event.
  request_of : EventRecurrencePattern → Event → Result Stop RecurrenceRequest
  unfolding check_occurrences
  request_of pattern event = do
    given ←
        ok_or event.recurrence_additional_occurrences
          (error "recurring events require recurrence_additional_occurrences")
    additional_occurrences ← check_occurrences given
    base_starts_at ← ok_or event.starts_at (error "recurring events require starts_at")
    timezone ← ok_or (z.parse_tz event.timezone) (error "invalid event timezone")
    ok (record {
      additional_occurrences = additional_occurrences;
      base_starts_at = base_starts_at;
      pattern = pattern;
      timezone = timezone;
    })

  request_for : EventRecurrencePattern → Event → Result Stop (Option RecurrenceRequest)
  unfolding request_of
  request_for just_once event = ok none
  request_for pattern event = do r ← request_of pattern event; ok (some r)

  pub recurrence_request : Event → Result Stop (Option RecurrenceRequest)
  unfolding request_for
  recurrence_request event = request_for (unwrap_or just_once event.recurrence_pattern) event

  recurrence_metadata : RecurrenceRequest → Result Stop Value
  unfolding recurrence_db_value
  recurrence_metadata r = do
    pattern ←
        ok_or (recurrence_db_value r.pattern)
          (error "recurring event pattern must be supported by the database")
    ok (
        object (
          field "additional_occurrences" (number (display r.additional_occurrences))
            (field "pattern" (string pattern) end)))

  module _ (new_v4 : ℕ → String) where
    payloads_of :
        Value
        → RecurrenceRequest
        → Result Stop (List NaiveDateTime)
        → Result Stop RecurringEventPayloads
    unfolding build_payloads recurrence_metadata
    payloads_of base_payload r start_times = do
      occurrences ← start_times
      generated ← build_payloads new_v4 base_payload r occurrences 0
      recurrence ← recurrence_metadata r
      ok (record { events = base_payload ∷ generated; recurrence = recurrence })

    payloads_for :
        Value
        → Result Stop (Option RecurrenceRequest)
        → Option (Result Stop (Option RecurringEventPayloads))
    unfolding payloads_of occurrence_start_times
    payloads_for base_payload (err e) = some (err e)
    payloads_for base_payload (ok none) = some (ok none)
    payloads_for base_payload (ok (some r)) = elim (occurrence_start_times r) [
      | none ↦ none
      | some start_times ↦
          some (do payloads ← payloads_of base_payload r start_times; ok (some payloads))
    ]

    -- `RecurringEventPayloads::from_event`; `none` if the loop over the months has not ended.
    pub from_event : Event → Value → Option (Result Stop (Option RecurringEventPayloads))
    unfolding payloads_for recurrence_request
    from_event event base_payload = payloads_for base_payload (recurrence_request event)
