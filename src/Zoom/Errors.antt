-- ===== src/Zoom/Errors.antt =====
-- The errors of the Zoom client: from a response of Zoom to the error of the provider.
pub mod Retries
use Prim.Native.String.{◌++◌}
use open_community_groups.Prelude.{
  ℕ, ◌*◌, String, Bool, true, false, ◌||◌, Option, none, some, if◌then◌else◌, nat_beq, unwrap_or,
}
use open_community_groups.Prelude.Text.{display_signed, codes, parse_u64}
use open_community_groups.Prelude.Result.{Result, ok, err}
use open_community_groups.Meetings.Types.{Duration, MeetingProviderError, from_secs}
use open_community_groups.Zoom.Types.{
  ZoomClientError, client, server, invalid_duration, network, token, rate_limit,
  ZoomClientErrorResponse, default_rate_limit_retry, zoom_meeting_not_found,
}
use open_community_groups.Zoom.World.{Response, World, is_client_error}

-- The delay that the header `Retry-After` asks for.
retry_delay : Option String → Duration
retry_delay none = default_rate_limit_retry
retry_delay (some text) = elim (parse_u64 (codes text)) [
  | ok seconds ↦ from_secs seconds
  | err e ↦ default_rate_limit_retry
]

-- A body that cannot be decoded counts as an error without code and message.
unfoldable pub error_response : Option ZoomClientErrorResponse → ZoomClientErrorResponse
error_response decoded = unwrap_or (record { code = 0; message = "" }) decoded

error_of : ℕ → Duration → ZoomClientErrorResponse → ZoomClientError
error_of status retry_after error =
    if nat_beq status 429
    then rate_limit retry_after
    else if nat_beq status 401 || nat_beq status 403
    then token (display_signed 32 error.code ++ " - " ++ error.message)
    else if is_client_error status
    then client error.code error.message
    else server error.code error.message

-- `ZoomClientError::from_response`
unfoldable pub from_response : World → Response → ZoomClientError
unfolding retry_delay error_response error_of
from_response w response =
    error_of response.status (retry_delay response.retry_after)
      (error_response (w.decode_error response.body))

-- `MeetingProviderError::from`
unfoldable pub provider_error : ZoomClientError → MeetingProviderError
provider_error (client code message) =
    if nat_beq code zoom_meeting_not_found
    then MeetingProviderError.not_found
    else MeetingProviderError.client (display_signed 32 code ++ ": " ++ message)
provider_error (invalid_duration minutes) =
    MeetingProviderError.client
      ("invalid meeting duration: " ++ display_signed 64 minutes ++ " minutes")
provider_error (network msg) = MeetingProviderError.network msg
provider_error (rate_limit retry_after) = MeetingProviderError.rate_limit retry_after
provider_error (server code message) =
    MeetingProviderError.server (display_signed 32 code ++ ": " ++ message)
provider_error (token msg) = MeetingProviderError.token msg
