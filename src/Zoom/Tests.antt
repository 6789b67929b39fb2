-- ===== src/Zoom/Tests.antt =====
-- A client whose second request follows at once.
use open_community_groups.Prelude.{
  ◌≡◌, ◌↔◌, String, false, not, ◌||◌, none, some, List, [], ◌∷◌, nat_beq, arith,
}
use open_community_groups.Prelude.Result.{Result, ok, err}
use open_community_groups.Meetings.Types.{MeetingProviderError, is_retryable}
use open_community_groups.Meetings.Calls.{ProviderCall}
use open_community_groups.Zoom.Types.{zoom_meeting_not_found, ZoomMeeting}
use open_community_groups.Zoom.World.{
  Response, World, new_client, is_client_error, Authorization, basic, bearer,
}
use open_community_groups.Zoom.Errors.{from_response, error_response, provider_error}
use open_community_groups.Zoom.Errors.Retries.{from_response-is_retryable}
use open_community_groups.Zoom.Client.Paced.{IsPaced}
use open_community_groups.Zoom.Provider.Runs.{run_operations, run_operations-IsPaced}
use open_community_groups.Zoom.Provider.{
  parse_meeting_id, provider_meeting, delete_error, delete_meeting,
}
use open_community_groups.Zoom.Provider.Identifiers.{parse_meeting_id-provider_meeting}
use open_community_groups.Zoom.Client as Client
use open_community_groups.Prelude.Stateful.{map_err}

abbrev responses : Authorization → Result String Response
responses (basic c) = ok (record { status = 200; retry_after = none; body = "token" })
responses (bearer b) = ok (record { status = 404; retry_after = none; body = "missing" })

abbrev world : World
world = record {
  account_id = "account";
  client_id = "client";
  client_secret = "secret";
  base64 = λ s. s;
  utf8_percent_encode = λ s. s;
  passing = λ s. 10;
  answer = λ s r. responses r.authorization;
  decode_error = λ s. some (record { code = zoom_meeting_not_found; message = "gone" });
  decode_meeting = λ s. err "no meeting";
  decode_token = λ s. ok (record { access_token = s; expires_in = 3600 });
}

abbrev operations : List ProviderCall
operations = ProviderCall.get_meeting "7" ∷ ProviderCall.end_meeting "7" ∷ []

run_operations-IsPaced_example : IsPaced (run_operations world operations (new_client 5)).events
run_operations-IsPaced_example = run_operations-IsPaced world operations 5

abbrev missing : Response
missing = record { status = 404; retry_after = none; body = "missing" }

from_response-is_retryable_example :
    (is_retryable (provider_error (from_response world missing))
      ≡ not (is_client_error 404) || nat_beq 404 401 || nat_beq 404 403 || nat_beq 404 429)
    × ((provider_error (from_response world missing) ≡ MeetingProviderError.not_found)
        ↔ (is_retryable (provider_error (from_response world missing)) ≡ false)
          × ((error_response (world.decode_error "missing")).code ≡ zoom_meeting_not_found))
from_response-is_retryable_example = from_response-is_retryable world missing

abbrev zoom_meeting : ZoomMeeting
zoom_meeting = record {
  id = 85746065432;
  join_url = "https://zoom.us/j/85746065432";
  password = none;
  status = none;
}

parse_meeting_id-provider_meeting_example :
    (parse_meeting_id (provider_meeting zoom_meeting).id ≡ ok 85746065432)
    × (delete_meeting world (provider_meeting zoom_meeting).id (new_client 5)
        ≡ map_err delete_error (Client.delete_meeting world 85746065432) (new_client 5))
parse_meeting_id-provider_meeting_example =
    parse_meeting_id-provider_meeting world zoom_meeting (new_client 5) (omega arith)
