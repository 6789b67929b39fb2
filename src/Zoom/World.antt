-- ===== src/Zoom/World.antt =====
-- The state of a `ZoomClient`, with the clock and a record of what it did, and the outside: the time
-- that passes, the answers of Zoom, and the crates that encode requests and decode answers.
use open_community_groups.Prelude.{ℕ, String, Bool, ◌&&◌, Option, none, List, [], ltb, leb}
use open_community_groups.Prelude.Result.{Result}
use open_community_groups.Prelude.Stateful.{Stateful}
use open_community_groups.Meetings.Types.{Duration}
use open_community_groups.Zoom.Types.{
  Instant, CachedToken, CreateMeetingRequest, UpdateMeetingRequest, ZoomClientErrorResponse,
  TokenResponse, ZoomMeeting,
}

pub data Method : Type 0 where
  post delete put get patch : Method

pub data Authorization : Type 0 where
  basic bearer : String → Authorization

pub data Body : Type 0 where
  no_body : Body
  form action : String → Body
  create : CreateMeetingRequest → Body
  update : UpdateMeetingRequest → Body

pub record Request : Type 0 where
  pub method : Method
  pub url : String
  pub authorization : Authorization
  pub body : Body

-- `retry_after` is the header, if it is there and is text.
pub record Response : Type 0 where
  pub status : ℕ
  pub retry_after : Option String
  pub body : String

abbrev pub is_success : ℕ → Bool
is_success status = leb 200 status && ltb status 300

abbrev pub is_client_error : ℕ → Bool
is_client_error status = leb 400 status && ltb status 500

-- What a client did: it reserved the slot after this time, it sent a request and got this answer.
pub data Event : Type 0 where
  slot : Instant → Event
  request : Request → Result String Response → Event

-- `clock` is the time of the last reading, and the newest event stands first.
pub record State : Type 0 where
  pub clock : Instant
  pub events : List Event
  pub next_request_at : Option Instant
  pub token : Option CachedToken

-- How much time passes before the next reading of the clock, which is monotonic, and the answer to
-- the next request, or the error of its sending, may depend on all that was before.
pub record World : Type 0 where
  pub account_id : String
  pub client_id : String
  pub client_secret : String
  pub base64 : String → String
  pub utf8_percent_encode : String → String
  pub passing : State → Duration
  pub answer : State → Request → Result String Response
  pub decode_error : String → Option ZoomClientErrorResponse
  pub decode_meeting : String → Result String ZoomMeeting
  pub decode_token : String → Result String TokenResponse

abbrev pub Call : Type 0 → Type 0 → Type 0
Call = Stateful State

-- A client that was just made.
abbrev pub new_client : Instant → State
new_client now = record { clock = now; events = []; next_request_at = none; token = none }
