-- ===== src/Zoom/Provider/Identifiers.antt =====
-- The identifiers of meetings, which the provider hands out as text.
use open_community_groups.Prelude.{◌^◌, ◌<◌, ◌≡◌, ap}
use open_community_groups.Prelude.Text.Numbers.{parse_i64-display_signed}
use open_community_groups.Prelude.Result.{ok, map_err as map_err_result}
use open_community_groups.Prelude.Stateful.{map_err, lift, ◌>>=◌}
use open_community_groups.Meetings.Types.{MeetingProviderError}
use open_community_groups.Zoom.Types.{ZoomMeeting}
use open_community_groups.Zoom.World.{State, World}
use open_community_groups.Zoom.Client as Client
use open_community_groups.Zoom.Provider.{
  parse_meeting_id, provider_meeting, delete_error, delete_meeting,
}

-- The identifier that the provider gives of a meeting of Zoom is read back as Zoom's number for it,
-- which is an `i64`, and a deletion by that identifier asks Zoom to delete the meeting of that number.
pub parse_meeting_id-provider_meeting :
    (w : World) (zoom_meeting : ZoomMeeting) (s : State)
    → zoom_meeting.id < 2 ^ 64
    → (parse_meeting_id (provider_meeting zoom_meeting).id ≡ ok zoom_meeting.id)
      × (delete_meeting w (provider_meeting zoom_meeting).id s
          ≡ map_err delete_error (Client.delete_meeting w zoom_meeting.id) s)
unfolding parse_meeting_id provider_meeting delete_meeting
parse_meeting_id-provider_meeting w zoom_meeting s h =
    let read =
      ap (map_err_result MeetingProviderError.client)
        (parse_i64-display_signed zoom_meeting.id h) in
    (
      read,
      ap
          (λ r.
            (do meeting_id ← lift r; map_err delete_error (Client.delete_meeting w meeting_id)) s)
          read,
    )
