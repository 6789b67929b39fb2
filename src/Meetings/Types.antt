-- ===== src/Meetings/Types.antt =====
-- The data types of services/meetings.rs and their methods. A `Duration` is its nanoseconds, a
-- `DateTime<Utc>` the nanoseconds since the earliest one, a `Uuid` its 128 bits as a number, and an
-- `anyhow::Error` the text that it displays.
use Prim.Native.String.{◌++◌}
use open_community_groups.Prelude.{
  ℕ, ◌*◌, ◌/◌, String, Bool, true, false, not, Option, none, some, List,
}
use open_community_groups.Prelude.Text.{display}

abbrev pub Uuid : Type 0
Uuid = ℕ

abbrev pub Duration : Type 0
Duration = ℕ

abbrev pub DateTime : Type 0
DateTime = ℕ

abbrev pub from_secs : ℕ → Duration
from_secs n = n * 1000000000

abbrev pub from_mins : ℕ → Duration
from_mins n = from_secs (60 * n)

unfoldable pub as_secs : Duration → ℕ
as_secs d = d / 1000000000

-- `MEETING_PROCESSING_TIMEOUT` and the pauses of the workers.
abbrev pub meeting_processing_timeout : Duration
meeting_processing_timeout = from_mins 15

abbrev pub pause_on_auto_end_error : Duration
pause_on_auto_end_error = from_secs 30

abbrev pub pause_on_auto_end_none : Duration
pause_on_auto_end_none = from_mins 1

abbrev pub pause_on_claim_recovery_error : Duration
pause_on_claim_recovery_error = from_secs 30

abbrev pub pause_on_claim_recovery_none : Duration
pause_on_claim_recovery_none = from_mins 1

abbrev pub pause_on_sync_error : Duration
pause_on_sync_error = from_secs 30

abbrev pub pause_on_sync_none : Duration
pause_on_sync_none = from_secs 30

pub data MeetingProvider : Type 0 where
  zoom : MeetingProvider

pub record MeetingProviderMeeting : Type 0 where
  pub id : String
  pub join_url : String
  pub password : Option String

pub data MeetingProviderError : Type 0 where
  client network : String → MeetingProviderError
  not_found no_slots_available : MeetingProviderError
  rate_limit : Duration → MeetingProviderError
  server token : String → MeetingProviderError

unfoldable pub is_retryable : MeetingProviderError → Bool
is_retryable (network msg) = true
is_retryable (rate_limit d) = true
is_retryable (server msg) = true
is_retryable (token msg) = true
is_retryable _ = false

provider_retry_after : MeetingProviderError → Option Duration
provider_retry_after (rate_limit d) = some d
provider_retry_after _ = none

provider_display : MeetingProviderError → String
unfolding as_secs
provider_display (client msg) = "provider client error: " ++ msg
provider_display (network msg) = "provider network error: " ++ msg
provider_display not_found = "meeting not found"
provider_display no_slots_available = "no meeting slots available for automatic creation"
provider_display (rate_limit d) = "rate limit exceeded (retry after " ++ display (as_secs d) ++ "s)"
provider_display (server msg) = "provider server error: " ++ msg
provider_display (token msg) = "provider token error: " ++ msg

pub data SyncError : Type 0 where
  provider : MeetingProviderError → SyncError
  provider_not_configured : MeetingProvider → SyncError
  other : String → SyncError

unfoldable pub is_non_retryable : SyncError → Bool
unfolding is_retryable
is_non_retryable (provider e) = not (is_retryable e)
is_non_retryable (provider_not_configured p) = true
is_non_retryable (other e) = false

unfoldable pub retry_after : SyncError → Option Duration
unfolding provider_retry_after
retry_after (provider e) = provider_retry_after e
retry_after (provider_not_configured p) = none
retry_after (other e) = none

-- `to_string`; the provider displays as "zoom".
unfoldable pub to_string : SyncError → String
unfolding provider_display
to_string (provider e) = provider_display e
to_string (provider_not_configured zoom) = "provider not configured: zoom"
to_string (other e) = e

pub record Meeting : Type 0 where
  pub provider : MeetingProvider
  pub delete : Option Bool
  pub duration : Option Duration
  pub event_id : Option Uuid
  pub hosts : Option (List String)
  pub join_url : Option String
  pub meeting_id : Option Uuid
  pub password : Option String
  pub provider_host_user_id : Option String
  pub provider_meeting_id : Option String
  pub recording_requested : Option Bool
  pub session_id : Option Uuid
  pub starts_at : Option DateTime
  pub sync_claimed_at : Option DateTime
  pub sync_state_hash : Option String
  pub timezone : Option String
  pub topic : Option String

pub data SyncAction : Type 0 where
  create delete update : SyncAction

sync_action_of : Option Bool → Option String → SyncAction
sync_action_of (some true) id = delete
sync_action_of _ none = create
sync_action_of _ (some id) = update

unfoldable pub sync_action : Meeting → SyncAction
unfolding sync_action_of
sync_action m = sync_action_of m.delete m.provider_meeting_id

-- `DateTime::checked_add_signed` after `chrono::Duration::from_std`: `none` out of chrono's range.
abbrev pub CheckedAdd : Type 0
CheckedAdd = DateTime → Duration → Option DateTime

unfoldable pub ends_at : CheckedAdd → Meeting → Option DateTime
ends_at checked_add m = elim m.starts_at [
  | none ↦ none
  | some start ↦ elim m.duration [ none ↦ none | some d ↦ checked_add start d ]
]

pub data MeetingAutoEndCheckOutcome : Type 0 where
  already_not_running auto_ended error not_found : MeetingAutoEndCheckOutcome

pub data MeetingEndResult : Type 0 where
  already_not_running ended : MeetingEndResult

pub record MeetingAutoEndCandidate : Type 0 where
  pub auto_end_check_claimed_at : DateTime
  pub meeting_id : Uuid
  pub provider : MeetingProvider
  pub provider_meeting_id : String

pub record MeetingsZoomConfig : Type 0 where
  pub host_pool_users : List String
  pub max_simultaneous_meetings_per_host : ℕ
