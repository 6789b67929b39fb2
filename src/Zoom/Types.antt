-- ===== src/Zoom/Types.antt =====
-- The data types of zoom/client.rs. An `Instant` is its nanoseconds since some first one, a `Duration`
-- is as in Meetings.Types, an `i64` its 64 bits and an `i32` its 32 bits.
use open_community_groups.Prelude.{
  ℕ, ◌/◌, ◌^◌, ◌-◌, String, Bool, true, false, ◌&&◌, Option, none, some, if◌then◌else◌, ltb, leb,
  unwrap_or,
}
use open_community_groups.Prelude.Result.{Result, ok, err, ◌>>=◌}
use open_community_groups.Meetings.Types.{
  Duration, DateTime, Meeting, from_secs, from_mins, as_secs,
}

abbrev pub Instant : Type 0
Instant = ℕ

abbrev pub zoom_meeting_not_found : ℕ
zoom_meeting_not_found = 3001

abbrev pub api_base_url : String
api_base_url = "https://api.zoom.us/v2"

abbrev pub default_rate_limit_retry : Duration
default_rate_limit_retry = from_mins 1

abbrev pub max_duration_minutes : ℕ
max_duration_minutes = 720

abbrev pub min_duration_minutes : ℕ
min_duration_minutes = 5

abbrev pub token_expiry_margin : Duration
token_expiry_margin = from_mins 5

abbrev pub zoom_request_interval : Duration
zoom_request_interval = from_secs 1

abbrev pub zoom_token_url : String
zoom_token_url = "https://zoom.us/oauth/token"

pub data ZoomClientError : Type 0 where
  client server : (code : ℕ) (message : String) → ZoomClientError
  invalid_duration : ℕ → ZoomClientError
  network token : String → ZoomClientError
  rate_limit : Duration → ZoomClientError

pub record ZoomClientErrorResponse : Type 0 where
  pub code : ℕ
  pub message : String

pub record CachedToken : Type 0 where
  pub access_token : String
  pub expires_at : Instant

pub record TokenResponse : Type 0 where
  pub access_token : String
  pub expires_in : ℕ

pub record ZoomMeeting : Type 0 where
  pub id : ℕ
  pub join_url : String
  pub password : Option String
  pub status : Option String

pub record MeetingSettings : Type 0 where
  pub auto_recording : Option String
  pub jbh_time : Option ℕ
  pub join_before_host : Option Bool
  pub mute_upon_entry : Option Bool
  pub participant_video : Option Bool
  pub waiting_room : Option Bool

pub record CreateMeetingRequest : Type 0 where
  pub meeting_type : ℕ
  pub topic : String
  pub default_password : Option Bool
  pub duration : Option ℕ
  pub settings : Option MeetingSettings
  pub start_time : Option DateTime
  pub timezone : Option String

pub record UpdateMeetingRequest : Type 0 where
  pub duration : Option ℕ
  pub settings : Option MeetingSettings
  pub start_time : Option DateTime
  pub timezone : Option String
  pub topic : Option String

default_meeting_settings : Option Bool → MeetingSettings
default_meeting_settings recording_requested = record {
  auto_recording = some (if unwrap_or true recording_requested then "cloud" else "none");
  jbh_time = some 15;
  join_before_host = some true;
  mute_upon_entry = some true;
  participant_video = some false;
  waiting_room = some false;
}

-- `Minutes::try_from_duration`; the seconds of a `Duration` fit into 64 bits.
unfoldable pub try_from_duration : Duration → Result ZoomClientError ℕ
unfolding as_secs
try_from_duration d =
    let whole = as_secs d / 60 in
    let minutes = if ltb whole (2 ^ 63) then whole else 2 ^ 63 - 1 in
    if leb min_duration_minutes minutes && leb minutes max_duration_minutes
    then ok minutes
    else err (invalid_duration minutes)

-- `m.duration.map(Minutes::try_from_duration).transpose()`
minutes_of : Option Duration → Result ZoomClientError (Option ℕ)
unfolding try_from_duration
minutes_of none = ok none
minutes_of (some d) = do minutes ← try_from_duration d; ok (some minutes)

-- `CreateMeetingRequest::try_from`
unfoldable pub create_request : Meeting → Result ZoomClientError CreateMeetingRequest
unfolding minutes_of default_meeting_settings
create_request m = do
  minutes ← minutes_of m.duration
  ok (record {
    meeting_type = 2;
    topic = unwrap_or "" m.topic;
    default_password = some true;
    duration = minutes;
    settings = some (default_meeting_settings m.recording_requested);
    start_time = m.starts_at;
    timezone = m.timezone;
  })

-- `UpdateMeetingRequest::try_from`
unfoldable pub update_request : Meeting → Result ZoomClientError UpdateMeetingRequest
unfolding minutes_of default_meeting_settings
update_request m = do
  minutes ← minutes_of m.duration
  ok (record {
    duration = minutes;
    settings = some (default_meeting_settings m.recording_requested);
    start_time = m.starts_at;
    timezone = m.timezone;
    topic = m.topic;
  })
