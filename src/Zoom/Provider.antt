-- ===== src/Zoom/Provider.antt =====
-- `ZoomMeetingsProvider`: the operations of the trait `MeetingsProvider` by those of the client.
pub mod Runs
pub mod Identifiers
use open_community_groups.Prelude.{
  ℕ, String, Bool, true, false, Option, none, some, if◌then◌else◌, nat_beq,
}
use open_community_groups.Prelude.Text.{display_signed, codes, eq_ignore_ascii_case, parse_i64}
use open_community_groups.Prelude.Result.{Result, ok, err, ok_or, map_err as map_err_result}
use open_community_groups.Prelude.Stateful.{Stateful, ◌>>=◌, ◌>>◌, pure, fail, lift, map_err}
use open_community_groups.Meetings.Types.{
  Meeting, MeetingEndResult, MeetingProviderError, MeetingProviderMeeting,
}
use open_community_groups.Zoom.Types.{
  ZoomClientError, client, zoom_meeting_not_found, ZoomMeeting, create_request, update_request,
}
use open_community_groups.Zoom.World.{World, Call}
use open_community_groups.Zoom.Errors.{provider_error}
use open_community_groups.Zoom.Client as Client

-- The identifier of a meeting is Zoom's number as text.
pub parse_meeting_id : String → Result MeetingProviderError ℕ
parse_meeting_id provider_meeting_id =
    map_err_result MeetingProviderError.client (parse_i64 (codes provider_meeting_id))

pub provider_meeting : ZoomMeeting → MeetingProviderMeeting
provider_meeting zoom_meeting = record {
  id = display_signed 64 zoom_meeting.id;
  join_url = zoom_meeting.join_url;
  password = zoom_meeting.password;
}

is_started : ZoomMeeting → Bool
is_started zoom_meeting = elim zoom_meeting.status [
  | none ↦ false
  | some status ↦ eq_ignore_ascii_case (codes status) (codes "started")
]

-- The error of a deletion.
pub delete_error : ZoomClientError → MeetingProviderError
unfolding provider_error
delete_error (client code message) =
    if nat_beq code zoom_meeting_not_found
    then MeetingProviderError.not_found
    else provider_error (client code message)
delete_error e = provider_error e

module _ (w : World) where
  -- A meeting that has started is ended.
  end_if : ℕ → Bool → Call MeetingProviderError MeetingEndResult
  end_if meeting_id false = pure MeetingEndResult.already_not_running
  end_if meeting_id true = do
    map_err provider_error (Client.end_meeting w meeting_id)
    pure MeetingEndResult.ended

  pub create_meeting : Meeting → Call MeetingProviderError MeetingProviderMeeting
  unfolding provider_meeting
  create_meeting meeting = do
    host_user_id ← lift (
        ok_or meeting.provider_host_user_id
          (MeetingProviderError.client "missing provider host user id"))
    req ← lift (map_err_result provider_error (create_request meeting))
    zoom_meeting ← map_err provider_error (Client.create_meeting w host_user_id req)
    pure (provider_meeting zoom_meeting)

  pub delete_meeting : String → Call MeetingProviderError (Unit {0})
  unfolding parse_meeting_id delete_error
  delete_meeting provider_meeting_id = do
    meeting_id ← lift (parse_meeting_id provider_meeting_id)
    map_err delete_error (Client.delete_meeting w meeting_id)

  pub end_meeting : String → Call MeetingProviderError MeetingEndResult
  unfolding parse_meeting_id is_started end_if
  end_meeting provider_meeting_id = do
    meeting_id ← lift (parse_meeting_id provider_meeting_id)
    zoom_meeting ← map_err provider_error (Client.get_meeting w meeting_id)
    end_if meeting_id (is_started zoom_meeting)

  pub get_meeting : String → Call MeetingProviderError MeetingProviderMeeting
  unfolding parse_meeting_id provider_meeting
  get_meeting provider_meeting_id = do
    meeting_id ← lift (parse_meeting_id provider_meeting_id)
    zoom_meeting ← map_err provider_error (Client.get_meeting w meeting_id)
    pure (provider_meeting zoom_meeting)

  pub update_meeting : String → Meeting → Call MeetingProviderError (Unit {0})
  unfolding parse_meeting_id
  update_meeting provider_meeting_id meeting = do
    meeting_id ← lift (parse_meeting_id provider_meeting_id)
    req ← lift (map_err_result provider_error (update_request meeting))
    map_err provider_error (Client.update_meeting w meeting_id req)
