-- ===== src/Zoom/Client/Paced.antt =====
-- The client starts no two requests within the interval between them.
use mathlib.Core.Path.{subst, subst₂}
use open_community_groups.Prelude.{
  ℕ, ◌+◌, ◌-◌, ◌≤◌, ◌≡◌, refl, String, Bool, true, false, Option, none, some, List, [], ◌∷◌, arith,
  ltb, sym, if◌then◌else◌,
}
use open_community_groups.Prelude.Result.{ok}
use open_community_groups.Prelude.Stateful.{
  ◌>>=◌, ◌>>◌, pure, fail, lift, map_err, Keeps, bind-Keeps,
}
use open_community_groups.Zoom.Types.{
  Instant, network, token, CachedToken, CreateMeetingRequest, UpdateMeetingRequest,
  zoom_request_interval,
}
use open_community_groups.Zoom.World.{Request, Event, State, World, is_success, new_client}
use open_community_groups.Zoom.Client.{
  instant_now, sleep, sleep_until, reserve, wait_for_request_slot, send, send_paced, fetch_token,
  keep_token, new_token, cached_or_new, get_token, api_call, meeting_call, create_meeting,
  delete_meeting, end_meeting, get_meeting, update_meeting, token_request, token_error, is_fresh,
}

-- The time is an interval after the last slot, or later.
abbrev pub IsAfter : Instant → List Event → Type 0
IsAfter t [] = Unit
IsAfter t (Event.slot u ∷ es) = u + zoom_request_interval ≤ t
IsAfter t (Event.request r a ∷ es) = IsAfter t es

-- Each request has its own slot, which is an interval after the one before or later.
abbrev pub IsPaced : List Event → Type 0
IsPaced [] = Unit
IsPaced (Event.slot t ∷ es) = ⊥
IsPaced (Event.request r a ∷ []) = ⊥
IsPaced (Event.request r a ∷ Event.request q b ∷ es) = ⊥
IsPaced (Event.request r a ∷ Event.slot t ∷ es) = IsAfter t es × IsPaced es

-- From the time of the next request on, requests may be sent.
unfoldable pub Ready : Option Instant → List Event → Type 0
Ready none es = es ≡ []
Ready (some allowed_at) es = (t : Instant) → allowed_at ≤ t → IsAfter t es

abbrev pub Good : State → Type 0
Good s = IsPaced s.events × Ready s.next_request_at s.events

-- The second state is the first after the slot at this time was taken.
abbrev Reserved : Instant → State → State → Type 0
Reserved t s s' =
    (s'.events ≡ Event.slot t ∷ s.events)
    × (s'.next_request_at ≡ some (t + zoom_request_interval))
    × (s'.token ≡ s.token)
    × IsAfter t s.events

checked-Good : {E A : Type 0} (b : Bool) (a : A) (e : E) → Keeps Good (if b then pure a else fail e)
checked-Good true a e s good = good
checked-Good false a e s good = good

module _ (w : World) where
  slept-Reserved :
      (b : Bool) (now allowed_at : Instant) (s : State)
      → ltb now allowed_at ≡ b
      → now ≤ s.clock
      → ((t : Instant) → allowed_at ≤ t → IsAfter t s.events)
      → let after =
          (do
            if b then sleep w (allowed_at - now) else pure tt
            later ← instant_now w
            reserve w {E = String} later)
            s in
        (t : Instant) × (after.0 ≡ ok tt) × Reserved t s after.1
  unfolding sleep instant_now reserve
  slept-Reserved true now allowed_at s e now_past ready =
      (_, refl, (refl, refl, refl, ready _ (ground (arith, e))))
  slept-Reserved false now allowed_at s e now_past ready =
      (_, refl, (refl, refl, refl, ready _ (ground (arith, e))))

  waited-Reserved :
      (n : Option Instant) (now : Instant) (s : State)
      → now ≤ s.clock
      → Ready n s.events
      → let after =
          (do sleep_until w now n; later ← instant_now w; reserve w {E = String} later) s in
        (t : Instant) × (after.0 ≡ ok tt) × Reserved t s after.1
  unfolding sleep_until sleep instant_now reserve Ready
  waited-Reserved none now s now_past ready =
      (_, refl, (refl, refl, refl, subst (IsAfter _) (sym ready) tt))
  waited-Reserved (some allowed_at) now s now_past ready =
      slept-Reserved (ltb now allowed_at) now allowed_at s refl now_past ready

  wait_for_request_slot-Reserved :
      (s : State)
      → Good s
      → (t : Instant) × ((wait_for_request_slot w {E = String} s).0 ≡ ok tt)
        × Reserved t s (wait_for_request_slot w {E = String} s).1
  unfolding wait_for_request_slot instant_now
  wait_for_request_slot-Reserved s (paced, ready) =
      waited-Reserved s.next_request_at (s.clock + w.passing s)
        (record s { clock = s.clock + w.passing s }) (omega arith) ready

  -- What a request leaves: its event over that of its slot.
  send_paced-Sent :
      (request : Request) (s : State)
      → Good s
      → (t : Instant) × ((send_paced w request s).1.events
          ≡ Event.request request (send_paced w request s).0 ∷ Event.slot t ∷ s.events)
        × ((send_paced w request s).1.next_request_at ≡ some (t + zoom_request_interval))
        × ((send_paced w request s).1.token ≡ s.token)
        × IsAfter t s.events
  unfolding send_paced send
  send_paced-Sent request s good =
      let (t, done, (events, next, kept, later)) = wait_for_request_slot-Reserved s good in
      (
        t,
        ground (arith, done, events),
        ground (arith, done, next),
        ground (arith, done, kept),
        later,
      )

  send_paced-Good : (request : Request) → Keeps Good (send_paced w request)
  unfolding Ready
  send_paced-Good request s (paced, ready) =
      let (t, events, next, kept, later) = send_paced-Sent request s (paced, ready) in
      (subst IsPaced (sym events) (later, paced), subst₂ Ready (sym next) (sym events) (λ u h. h))

  fetch_token-Good : Keeps Good (fetch_token w)
  unfolding fetch_token instant_now
  fetch_token-Good =
      bind-Keeps Good (send_paced w (token_request w)) _ (send_paced-Good (token_request w))
        λ response.
          bind-Keeps Good
            (if is_success response.status then pure tt else fail (token_error w response.body)) _
            (checked-Good (is_success response.status) tt (token_error w response.body))
            λ _.
              bind-Keeps Good (lift (w.decode_token response.body)) _ (λ s good. good)
                λ token_response s good. good

  new_token-Good : Keeps Good (new_token w)
  unfolding new_token keep_token
  new_token-Good = bind-Keeps Good (fetch_token w) _ fetch_token-Good λ fetched s good. good

  cached_or_new-Good :
      (now : Instant) (cached : Option CachedToken) → Keeps Good (cached_or_new w now cached)
  unfolding cached_or_new
  cached_or_new-Good now none s good = new_token-Good s good
  cached_or_new-Good now (some cached) s good =
      elim (is_fresh now cached)
        as (λ b. Good ((if b then pure cached.access_token else new_token w) s).1) [
          | true ↦ good
          | false ↦ new_token-Good s good
        ]

  get_token-Good : Keeps Good (get_token w)
  unfolding get_token instant_now
  get_token-Good s good =
      cached_or_new-Good (s.clock + w.passing s) s.token
        (record s { clock = s.clock + w.passing s }) good

  api_call-Good : (request : String → Request) → Keeps Good (api_call w request)
  unfolding api_call
  api_call-Good request =
      bind-Keeps Good (map_err token (get_token w)) _ get_token-Good λ access_token.
        bind-Keeps Good (map_err network (send_paced w (request access_token))) _
          (send_paced-Good (request access_token))
          λ response. checked-Good (is_success response.status) response _

  meeting_call-Good : (request : String → Request) → Keeps Good (meeting_call w request)
  unfolding meeting_call
  meeting_call-Good request =
      bind-Keeps Good (api_call w request) _ (api_call-Good request) λ response s good. good

  done-Good : (request : String → Request) → Keeps Good (do api_call w request; pure tt)
  done-Good request =
      bind-Keeps Good (api_call w request) _ (api_call-Good request) λ response s good. good

  pub create_meeting-Good :
      (host_user_id : String) (req : CreateMeetingRequest)
      → Keeps Good (create_meeting w host_user_id req)
  unfolding create_meeting
  create_meeting-Good host_user_id req = meeting_call-Good _

  pub delete_meeting-Good : (meeting_id : ℕ) → Keeps Good (delete_meeting w meeting_id)
  unfolding delete_meeting
  delete_meeting-Good meeting_id = done-Good _

  pub end_meeting-Good : (meeting_id : ℕ) → Keeps Good (end_meeting w meeting_id)
  unfolding end_meeting
  end_meeting-Good meeting_id = done-Good _

  pub get_meeting-Good : (meeting_id : ℕ) → Keeps Good (get_meeting w meeting_id)
  unfolding get_meeting
  get_meeting-Good meeting_id = meeting_call-Good _

  pub update_meeting-Good :
      (meeting_id : ℕ) (req : UpdateMeetingRequest) → Keeps Good (update_meeting w meeting_id req)
  unfolding update_meeting
  update_meeting-Good meeting_id req = done-Good _

pub new_client-Good : (now : Instant) → Good (new_client now)
unfolding Ready
new_client-Good now = (tt, refl)
