-- ===== src/Recurrence/Shift.antt =====
-- The helpers of recurrence.rs that shift the date fields of a payload. What chrono and chrono-tz
-- parse and print is a parameter; a UTC instant is its seconds, a timezone its name.
pub mod Shifted
use open_community_groups.Prelude.{
  ℕ, String, Bool, true, false, Option, none, some, List, [], ◌∷◌, if◌then◌else◌, unwrap_or, ◌==◌,
  string_eq,
}
use open_community_groups.Prelude.Result.{Result, ok, err, ◌>>=◌, ok_or}
use open_community_groups.Recurrence.Calendar.{Chrono, NaiveDateTime, TimeDelta, Stop, error, panic}
use open_community_groups.Recurrence.Json.{
  Value, null, bool, number, string, array, object, Items, Fields, update, for_each,
}
use Prim.Native.String.{◌++◌ as ◌++ˢ◌}

pub data LocalResult : Type 0 where
  single : ℕ → LocalResult
  ambiguous : ℕ → ℕ → LocalResult
  nowhere : LocalResult

pub record Zones : Type 0 where
  pub parse_tz : String → Option String
  pub parse_local : String → Option NaiveDateTime
  pub format_local : NaiveDateTime → String
  pub parse_rfc3339 : String → Option ℕ
  pub to_rfc3339 : ℕ → String
  pub naive_local : String → ℕ → NaiveDateTime
  pub from_local : String → NaiveDateTime → LocalResult
  pub add_utc : ℕ → TimeDelta → Option ℕ

-- The fields of these names, one after the other.
unfoldable pub shift_fields :
    (Value → Result Stop Value) → List String → Fields → Result Stop Fields
shift_fields f [] m = ok m
shift_fields f (field_name ∷ names) m = do m' ← update field_name f m; shift_fields f names m'

-- A local time that occurs twice is the earlier instant.
earliest : LocalResult → Option ℕ
earliest (single value) = some value
earliest (ambiguous earlier later) = some earlier
earliest nowhere = none

module _ (c : Chrono) (z : Zones) where
  unfoldable pub parse_local_datetime : String → Result Stop NaiveDateTime
  parse_local_datetime value =
      ok_or (z.parse_local value) (error ("invalid local datetime: " ++ˢ value))

  -- `datetime + delta`
  unfoldable pub shifted_by : TimeDelta → NaiveDateTime → Result Stop NaiveDateTime
  shifted_by delta datetime = ok_or (c.add datetime delta) panic

  unfoldable pub shift_local_text : TimeDelta → String → Result Stop Value
  unfolding parse_local_datetime shifted_by
  shift_local_text delta raw_value = do
    datetime ← parse_local_datetime raw_value
    shifted ← shifted_by delta datetime
    ok (string (z.format_local shifted))

  -- Values that are no text, or an empty one, are left alone.
  unfoldable pub shift_local_field : TimeDelta → Value → Result Stop Value
  unfolding shift_local_text
  shift_local_field delta (string raw_value) =
      if raw_value == "" then ok (string "") else shift_local_text delta raw_value
  shift_local_field delta value = ok value

  to_utc : String → NaiveDateTime → Option ℕ
  unfolding earliest
  to_utc timezone value = earliest (z.from_local timezone value)

  shift_utc_text : String → TimeDelta → String → Result Stop Value
  unfolding to_utc shifted_by
  shift_utc_text timezone delta raw_value = do
    base_utc ← ok_or (z.parse_rfc3339 raw_value) (error ("invalid UTC datetime: " ++ˢ raw_value))
    shifted_local ← shifted_by delta (z.naive_local timezone base_utc)
    fallback ← ok_or (z.add_utc base_utc delta) panic
    let shifted = unwrap_or fallback (to_utc timezone shifted_local)
    ok (string (z.to_rfc3339 shifted))

  unfoldable pub shift_rfc3339_field_preserving_wall_time :
      String → TimeDelta → Value → Result Stop Value
  unfolding shift_utc_text
  shift_rfc3339_field_preserving_wall_time timezone delta (string raw_value) =
      if raw_value == "" then ok (string "") else shift_utc_text timezone delta raw_value
  shift_rfc3339_field_preserving_wall_time timezone delta value = ok value

  unfoldable pub shift_object_local_fields : List String → TimeDelta → Fields → Result Stop Fields
  unfolding shift_local_field shift_fields
  shift_object_local_fields names delta = shift_fields (shift_local_field delta) names

  unfoldable pub shift_object_utc_fields :
      String → List String → TimeDelta → Fields → Result Stop Fields
  unfolding shift_rfc3339_field_preserving_wall_time shift_fields
  shift_object_utc_fields timezone names delta =
      shift_fields (shift_rfc3339_field_preserving_wall_time timezone delta) names
