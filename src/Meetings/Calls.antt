-- ===== src/Meetings/Calls.antt =====
-- The calls that the workers of services/meetings.rs make, and the outside that answers them. Every
-- answer may depend on the trace of all calls made before it, by this worker or another.
use open_community_groups.Prelude.{ℕ, String, Option, List}
use open_community_groups.Prelude.Result.{Result}
use open_community_groups.Meetings.Types.{
  Duration, DateTime, CheckedAdd, Meeting, MeetingAutoEndCandidate, MeetingAutoEndCheckOutcome,
  MeetingEndResult, MeetingProvider, MeetingProviderError, MeetingProviderMeeting,
  MeetingsZoomConfig,
}

-- The operations of the trait `DBMeetings` (db/meetings.rs) that the workers use.
pub data DbCall : Type 0 where
  add_meeting delete_meeting release_meeting_sync_claim update_meeting : Meeting → DbCall
  assign_zoom_host_user : Meeting → List String → ℕ → DateTime → DateTime → DbCall
  claim_meeting_for_auto_end claim_meeting_out_of_sync : DbCall
  mark_stale_meeting_auto_end_checks_unknown mark_stale_meeting_syncs_unknown : Duration → DbCall
  release_meeting_auto_end_check_claim : MeetingAutoEndCandidate → DbCall
  set_meeting_auto_end_check_outcome : MeetingAutoEndCandidate → MeetingAutoEndCheckOutcome → DbCall
  set_meeting_error : Meeting → String → DbCall

-- The operations of the trait `MeetingsProvider`.
pub data ProviderCall : Type 0 where
  create_meeting : Meeting → ProviderCall
  delete_meeting end_meeting get_meeting : String → ProviderCall
  update_meeting : String → Meeting → ProviderCall

pub data Call : Type 0 where
  db : DbCall → Call
  provider : ProviderCall → Call

-- What an operation answers after a trace.
abbrev pub Answer : Type 0 → Type 0 → Type 0
Answer E A = List Call → Result E A

pub record DbMeetings : Type 0 where
  pub add_meeting : Meeting → Answer String (Unit {0})
  pub assign_zoom_host_user :
      Meeting → List String → ℕ → DateTime → DateTime → Answer String (Option String)
  pub claim_meeting_for_auto_end : Answer String (Option MeetingAutoEndCandidate)
  pub claim_meeting_out_of_sync : Answer String (Option Meeting)
  pub delete_meeting : Meeting → Answer String (Unit {0})
  pub mark_stale_meeting_auto_end_checks_unknown : Duration → Answer String ℕ
  pub mark_stale_meeting_syncs_unknown : Duration → Answer String ℕ
  pub release_meeting_auto_end_check_claim : MeetingAutoEndCandidate → Answer String (Unit {0})
  pub release_meeting_sync_claim : Meeting → Answer String (Unit {0})
  pub set_meeting_auto_end_check_outcome :
      MeetingAutoEndCandidate → MeetingAutoEndCheckOutcome → Answer String (Unit {0})
  pub set_meeting_error : Meeting → String → Answer String (Unit {0})
  pub update_meeting : Meeting → Answer String (Unit {0})

pub record MeetingsProvider : Type 0 where
  pub create_meeting : Meeting → Answer MeetingProviderError MeetingProviderMeeting
  pub delete_meeting : String → Answer MeetingProviderError (Unit {0})
  pub end_meeting : String → Answer MeetingProviderError MeetingEndResult
  pub get_meeting : String → Answer MeetingProviderError MeetingProviderMeeting
  pub update_meeting : String → Meeting → Answer MeetingProviderError (Unit {0})

-- What a worker holds: the database, the providers map, the Zoom configuration, and chrono's
-- checked addition.
pub record World : Type 0 where
  pub db : DbMeetings
  pub providers : MeetingProvider → Option MeetingsProvider
  pub zoom_cfg : Option MeetingsZoomConfig
  pub checked_add : CheckedAdd
