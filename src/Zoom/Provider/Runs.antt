-- ===== src/Zoom/Provider/Runs.antt =====
-- Any sequence of operations of the provider, whatever they answer.
use open_community_groups.Prelude.{ℕ, String, Bool, true, false, List, [], ◌∷◌}
use open_community_groups.Prelude.Result.{Result, ok_or, map_err as map_err_result}
use open_community_groups.Prelude.Stateful.{Stateful, ◌>>=◌, pure, lift, map_err, Keeps, bind-Keeps}
use open_community_groups.Meetings.Types.{Meeting, MeetingProviderError}
use open_community_groups.Meetings.Calls.{ProviderCall}
use open_community_groups.Zoom.Types.{Instant, ZoomMeeting, create_request, update_request}
use open_community_groups.Zoom.World.{State, World, Call, new_client}
use open_community_groups.Zoom.Errors.{provider_error}
use open_community_groups.Zoom.Client as Client
use open_community_groups.Zoom.Client.Paced as Paced
use open_community_groups.Zoom.Client.Paced.{Good, IsPaced}
use open_community_groups.Zoom.Provider.{
  create_meeting, delete_meeting, end_meeting, end_if, get_meeting, update_meeting,
  parse_meeting_id, provider_meeting, is_started,
}

module _ (w : World) where
  -- The state that an operation leaves.
  perform : ProviderCall → State → State
  unfolding create_meeting delete_meeting end_meeting get_meeting update_meeting
  perform (ProviderCall.create_meeting meeting) s = (create_meeting w meeting s).1
  perform (ProviderCall.delete_meeting id) s = (delete_meeting w id s).1
  perform (ProviderCall.end_meeting id) s = (end_meeting w id s).1
  perform (ProviderCall.get_meeting id) s = (get_meeting w id s).1
  perform (ProviderCall.update_meeting id meeting) s = (update_meeting w id meeting s).1

  -- The operations, one after the other.
  pub run_operations : List ProviderCall → State → State
  unfolding perform
  run_operations [] s = s
  run_operations (operation ∷ operations) s = run_operations operations (perform operation s)

  lift-Good :
      {A B : Type 0} (r : Result MeetingProviderError A)
      (f : A → Stateful State MeetingProviderError B)
      → ((a : A) → Keeps Good (f a))
      → Keeps Good (lift r >>= f)
  lift-Good r f k = bind-Keeps Good (lift r) f (λ s good. good) k

  end_if-Good : (meeting_id : ℕ) (started : Bool) → Keeps Good (end_if w meeting_id started)
  unfolding end_if
  end_if-Good meeting_id true s good =
      bind-Keeps Good (map_err provider_error (Client.end_meeting w meeting_id)) _
        (Paced.end_meeting-Good w meeting_id) (λ _ s' good'. good') s good
  end_if-Good meeting_id false s good = good

  create_meeting-Good : (meeting : Meeting) → Keeps Good (create_meeting w meeting)
  unfolding create_meeting
  create_meeting-Good meeting =
      lift-Good
        (ok_or meeting.provider_host_user_id
          (MeetingProviderError.client "missing provider host user id"))
        _
        λ host_user_id. lift-Good (map_err_result provider_error (create_request meeting)) _ λ req.
          bind-Keeps Good (map_err provider_error (Client.create_meeting w host_user_id req)) _
            (Paced.create_meeting-Good w host_user_id req) λ zoom_meeting s good. good

  delete_meeting-Good : (id : String) → Keeps Good (delete_meeting w id)
  unfolding delete_meeting
  delete_meeting-Good id =
      lift-Good (parse_meeting_id id) _ λ meeting_id. Paced.delete_meeting-Good w meeting_id

  -- An operation that begins with a look at the meeting.
  with_meeting-Good :
      {B : Type 0} (id : String) (f : ℕ → ZoomMeeting → Call MeetingProviderError B)
      → ((meeting_id : ℕ) (zoom_meeting : ZoomMeeting) → Keeps Good (f meeting_id zoom_meeting))
      → Keeps Good (do
        meeting_id ← lift (parse_meeting_id id)
        zoom_meeting ← map_err provider_error (Client.get_meeting w meeting_id)
        f meeting_id zoom_meeting)
  with_meeting-Good id f k = lift-Good (parse_meeting_id id) _ λ meeting_id.
      bind-Keeps Good (map_err provider_error (Client.get_meeting w meeting_id)) _
        (Paced.get_meeting-Good w meeting_id) (k meeting_id)

  end_meeting-Good : (id : String) → Keeps Good (end_meeting w id)
  unfolding end_meeting
  end_meeting-Good id =
      with_meeting-Good id
        (λ meeting_id zoom_meeting. end_if w meeting_id (is_started zoom_meeting))
        λ meeting_id zoom_meeting. end_if-Good meeting_id (is_started zoom_meeting)

  get_meeting-Good : (id : String) → Keeps Good (get_meeting w id)
  unfolding get_meeting
  get_meeting-Good id =
      with_meeting-Good id (λ meeting_id zoom_meeting. pure (provider_meeting zoom_meeting))
        λ meeting_id zoom_meeting s good. good

  update_meeting-Good : (id : String) (meeting : Meeting) → Keeps Good (update_meeting w id meeting)
  unfolding update_meeting
  update_meeting-Good id meeting = lift-Good (parse_meeting_id id) _ λ meeting_id.
      lift-Good (map_err_result provider_error (update_request meeting)) _
        λ req. Paced.update_meeting-Good w meeting_id req

  perform-Good : (operation : ProviderCall) (s : State) → Good s → Good (perform operation s)
  unfolding perform
  perform-Good (ProviderCall.create_meeting meeting) s good = create_meeting-Good meeting s good
  perform-Good (ProviderCall.delete_meeting id) s good = delete_meeting-Good id s good
  perform-Good (ProviderCall.end_meeting id) s good = end_meeting-Good id s good
  perform-Good (ProviderCall.get_meeting id) s good = get_meeting-Good id s good
  perform-Good (ProviderCall.update_meeting id meeting) s good =
      update_meeting-Good id meeting s good

  run_operations-Good :
      (operations : List ProviderCall) (s : State) → Good s → Good (run_operations operations s)
  unfolding run_operations
  run_operations-Good [] s good = good
  run_operations-Good (operation ∷ operations) s good =
      run_operations-Good operations (perform operation s) (perform-Good operation s good)

  -- Whatever operations a new client carries out, and whatever Zoom answers, each request to Zoom,
  -- those for tokens included, has a slot of its own, and each slot is at least the interval between
  -- requests after the one before.
  pub run_operations-IsPaced :
      (operations : List ProviderCall) (now : Instant)
      → IsPaced (run_operations operations (new_client now)).events
  run_operations-IsPaced operations now =
      (run_operations-Good operations (new_client now) (Paced.new_client-Good now)).0
