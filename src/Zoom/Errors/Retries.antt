-- ===== src/Zoom/Errors/Retries.antt =====
-- Which answers of Zoom the workers try again.
use open_community_groups.Prelude.{◌≡◌, ◌↔◌, false, not, ◌||◌, arith, nat_beq}
use open_community_groups.Meetings.Types.{MeetingProviderError, is_retryable}
use open_community_groups.Zoom.Types.{zoom_meeting_not_found}
use open_community_groups.Zoom.World.{Response, World, is_client_error}
use open_community_groups.Zoom.Errors.{from_response, error_of, error_response, provider_error}

-- An answer of Zoom is tried again, unless its status says that the request was at fault, other than
-- for its token or the rate of requests; and the meeting counts as not found if and only if the
-- request was so at fault and the body has Zoom's code for that.
pub from_response-is_retryable :
    (w : World) (response : Response)
    → (is_retryable (provider_error (from_response w response))
        ≡ not (is_client_error response.status)
          || nat_beq response.status 401
          || nat_beq response.status 403
          || nat_beq response.status 429)
      × ((provider_error (from_response w response) ≡ MeetingProviderError.not_found)
          ↔ (is_retryable (provider_error (from_response w response)) ≡ false)
            × ((error_response (w.decode_error response.body)).code ≡ zoom_meeting_not_found))
unfolding from_response error_of error_response provider_error is_retryable
from_response-is_retryable w response = (ground arith, (λ e. ground arith, λ e. ground arith))
