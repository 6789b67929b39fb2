-- ===== src/Zoom/Client.antt =====
-- `ZoomClient`: each operation waits for its slot, and sends its request with an access token.
pub mod Paced
use Prim.Native.String.{◌++◌}
use open_community_groups.Prelude.{
  ℕ, ◌+◌, ◌-◌, String, Bool, Option, none, some, List, [], ◌∷◌, if◌then◌else◌, ltb, unwrap_or,
}
use open_community_groups.Prelude.Text.{display_signed}
use open_community_groups.Prelude.Result.{Result, ok, err}
use open_community_groups.Prelude.Stateful.{Stateful, ◌>>=◌, ◌>>◌, pure, fail, lift, map_err}
use open_community_groups.Meetings.Types.{Duration, from_secs}
use open_community_groups.Zoom.Types.{
  Instant, ZoomClientError, network, token, ZoomClientErrorResponse, CachedToken, TokenResponse,
  ZoomMeeting, CreateMeetingRequest, UpdateMeetingRequest, api_base_url, zoom_token_url,
  token_expiry_margin, zoom_request_interval,
}
use open_community_groups.Zoom.World.{
  Method, Authorization, Body, Request, Response, Event, State, World, Call, is_success,
}
use open_community_groups.Zoom.Errors.{from_response, error_response}

-- The bearer of a request to the API.
api_request : Method → String → Body → String → Request
api_request method url body access_token = record {
  method = method;
  url = url;
  authorization = Authorization.bearer access_token;
  body = body;
}

abbrev meeting_url : ℕ → String
meeting_url meeting_id = api_base_url ++ "/meetings/" ++ display_signed 64 meeting_id

-- Whether the cached token can still be used.
is_fresh : Instant → CachedToken → Bool
is_fresh now cached = ltb (now + token_expiry_margin) cached.expires_at

module _ (w : World) where
  -- `Instant::now`
  unfoldable pub instant_now : {E : Type 0} → Call E Instant
  instant_now s = let now = s.clock + w.passing s in (ok now, record s { clock = now })

  -- `sleep`
  sleep : {E : Type 0} → Duration → Call E (Unit {0})
  sleep d s = (ok tt, record s { clock = s.clock + d })

  -- The sleep for a slot that is still ahead.
  sleep_until : {E : Type 0} → Instant → Option Instant → Call E (Unit {0})
  unfolding sleep
  sleep_until now none = pure tt
  sleep_until now (some allowed_at) =
      if ltb now allowed_at then sleep (allowed_at - now) else pure tt

  -- The slot that follows this time is reserved.
  reserve : {E : Type 0} → Instant → Call E (Unit {0})
  reserve now s = (
    ok tt,
    record s {
      events = Event.slot now ∷ s.events;
      next_request_at = some (now + zoom_request_interval);
    },
  )

  wait_for_request_slot : {E : Type 0} → Call E (Unit {0})
  unfolding instant_now sleep_until reserve
  wait_for_request_slot s =
      (do now ← instant_now; sleep_until now s.next_request_at; later ← instant_now; reserve later)
        s

  -- The answer to a request, which is sent.
  send : Request → Call String Response
  send request s = (
    w.answer s request,
    record s { events = Event.request request (w.answer s request) ∷ s.events },
  )

  -- A request in its slot.
  send_paced : Request → Call String Response
  unfolding wait_for_request_slot send
  send_paced request = do wait_for_request_slot; send request

  -- The text of an error of the token endpoint.
  token_error : String → String
  unfolding error_response
  token_error body =
      let error = error_response (w.decode_error body) in
      "zoom token error: " ++ display_signed 32 error.code ++ " - " ++ error.message

  token_request : Request
  token_request = record {
    method = Method.post;
    url = zoom_token_url;
    authorization = Authorization.basic (w.base64 (w.client_id ++ ":" ++ w.client_secret));
    body = Body.form ("grant_type=account_credentials&account_id=" ++ w.account_id);
  }

  -- A lifetime so long that its end is no `Instant`, which panics, is left out.
  fetch_token : Call String CachedToken
  unfolding send_paced token_request token_error instant_now
  fetch_token = do
    response ← send_paced token_request
    if is_success response.status then pure tt else fail (token_error response.body)
    token_response ← lift (w.decode_token response.body)
    now ← instant_now
    pure (record {
      access_token = token_response.access_token;
      expires_at = now + from_secs token_response.expires_in;
    })

  keep_token : CachedToken → Call String (Unit {0})
  keep_token new_token s = (ok tt, record s { token = some new_token })

  new_token : Call String String
  unfolding fetch_token keep_token
  new_token = do fetched ← fetch_token; keep_token fetched; pure fetched.access_token

  cached_or_new : Instant → Option CachedToken → Call String String
  unfolding is_fresh new_token
  cached_or_new now none = new_token
  cached_or_new now (some cached) =
      if is_fresh now cached then pure cached.access_token else new_token

  get_token : Call String String
  unfolding cached_or_new instant_now
  get_token s = (do now ← instant_now; cached_or_new now s.token) s

  -- What the operations share: the token, the slot, the request and the check of its status.
  api_call : (String → Request) → Call ZoomClientError Response
  unfolding get_token send_paced from_response
  api_call request = do
    access_token ← map_err token get_token
    response ← map_err network (send_paced (request access_token))
    if is_success response.status then pure response else fail (from_response w response)

  -- A meeting in the body of a response.
  meeting_call : (String → Request) → Call ZoomClientError ZoomMeeting
  unfolding api_call
  meeting_call request = do
    response ← api_call request
    map_err network (lift (w.decode_meeting response.body))

  pub create_meeting : String → CreateMeetingRequest → Call ZoomClientError ZoomMeeting
  unfolding meeting_call api_request
  create_meeting host_user_id req = meeting_call (
      api_request Method.post
        (api_base_url ++ "/users/" ++ w.utf8_percent_encode host_user_id ++ "/meetings")
        (Body.create req))

  pub delete_meeting : ℕ → Call ZoomClientError (Unit {0})
  unfolding api_call api_request
  delete_meeting meeting_id = do
    api_call (api_request Method.delete (meeting_url meeting_id) Body.no_body)
    pure tt

  pub end_meeting : ℕ → Call ZoomClientError (Unit {0})
  unfolding api_call api_request
  end_meeting meeting_id = do
    api_call (api_request Method.put (meeting_url meeting_id ++ "/status") (Body.action "end"))
    pure tt

  pub get_meeting : ℕ → Call ZoomClientError ZoomMeeting
  unfolding meeting_call api_request
  get_meeting meeting_id =
      meeting_call (api_request Method.get (meeting_url meeting_id) Body.no_body)

  pub update_meeting : ℕ → UpdateMeetingRequest → Call ZoomClientError (Unit {0})
  unfolding api_call api_request
  update_meeting meeting_id req = do
    api_call (api_request Method.patch (meeting_url meeting_id) (Body.update req))
    pure tt
