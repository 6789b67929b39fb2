-- ===== src/Meetings/Tests.antt =====
-- Runs of the meeting workers against a concrete database and provider.
use open_community_groups.Prelude.{◌+◌, ◌≡◌, refl, Bool, true, false, none, some, List, [], ◌∷◌}
use open_community_groups.Prelude.Result.{ok, err}
use open_community_groups.Prelude.Loop.{Poll}
use open_community_groups.Meetings.Types.{
  Meeting, zoom, MeetingProviderError, MeetingEndResult, MeetingAutoEndCandidate,
  MeetingAutoEndCheckOutcome,
}
use open_community_groups.Meetings.Calls.{World, MeetingsProvider, DbMeetings}
use open_community_groups.Meetings.Sync.{sync_claimed}
use open_community_groups.Meetings.Sync.Claims.{
  Settles, Completed, sync_claimed-Settles, sync_claimed-Completed,
}
use open_community_groups.Meetings.Sync.Calls.{AreAllowed}
use open_community_groups.Meetings.Worker.{run_sync}
use open_community_groups.Meetings.Worker.Runs.{run_sync-IsAllowed}
use open_community_groups.Meetings.AutoEnd.{end_claimed}
use open_community_groups.Meetings.AutoEnd.Outcomes.{end_claimed-settled, settled, end_call}

abbrev meeting : Meeting
meeting = record {
  provider = zoom;
  delete = none;
  duration = some 3600000000000;
  event_id = some 7;
  hosts = none;
  join_url = none;
  meeting_id = none;
  password = none;
  provider_host_user_id = none;
  provider_meeting_id = none;
  recording_requested = none;
  session_id = none;
  starts_at = some 1000;
  sync_claimed_at = some 5;
  sync_state_hash = some "h";
  timezone = some "UTC";
  topic = some "Topic";
}

abbrev candidate : MeetingAutoEndCandidate
candidate = record {
  auto_end_check_claimed_at = 5;
  meeting_id = 1;
  provider = zoom;
  provider_meeting_id = "m1";
}

-- A database that accepts everything and always has the meeting above to offer.
abbrev database : DbMeetings
database = record {
  add_meeting = λ m s. ok tt;
  assign_zoom_host_user = λ m us k a b s. ok (some "host");
  claim_meeting_for_auto_end = λ s. ok (some candidate);
  claim_meeting_out_of_sync = λ s. ok (some meeting);
  delete_meeting = λ m s. ok tt;
  mark_stale_meeting_auto_end_checks_unknown = λ d s. ok 0;
  mark_stale_meeting_syncs_unknown = λ d s. ok 0;
  release_meeting_auto_end_check_claim = λ c s. ok tt;
  release_meeting_sync_claim = λ m s. ok tt;
  set_meeting_auto_end_check_outcome = λ c o s. ok tt;
  set_meeting_error = λ m e s. ok tt;
  update_meeting = λ m s. ok tt;
}

abbrev answering : MeetingsProvider
answering = record {
  create_meeting = λ m s. ok (record { id = "m1"; join_url = "https://zoom"; password = none });
  delete_meeting = λ i s. err MeetingProviderError.not_found;
  end_meeting = λ i s. ok MeetingEndResult.ended;
  get_meeting = λ i s. ok (record { id = "m1"; join_url = "https://zoom"; password = none });
  update_meeting = λ i m s. ok tt;
}

-- A provider that limits the rate of creations to one in 90 seconds.
abbrev with : MeetingsProvider → World
with p = record {
  db = database;
  providers = λ _. some p;
  zoom_cfg =
      some (record { host_pool_users = "host" ∷ []; max_simultaneous_meetings_per_host = 2 });
  checked_add = λ a d. some (a + d);
}

abbrev polls : List Poll
polls =
    record { in_pause = false; at_end = false } ∷ record { in_pause = false; at_end = true } ∷ []

sync_claimed-Settles_example : Settles meeting (sync_claimed (with answering) meeting []).1
sync_claimed-Settles_example = sync_claimed-Settles (with answering) meeting []

created : (sync_claimed (with answering) meeting []).0 ≡ ok true
unfolding sync_claimed
created = refl

sync_claimed-Completed_example :
    ◌≡◌ {A = Bool} true true
    × Completed (with answering) (sync_claimed (with answering) meeting []).1
sync_claimed-Completed_example = sync_claimed-Completed (with answering) meeting [] true created

run_sync-IsAllowed_example : AreAllowed (with answering) (run_sync (with answering) polls [])
run_sync-IsAllowed_example = run_sync-IsAllowed (with answering) polls [] tt

end_claimed-settled_example :
    (end_claimed (with answering) candidate []).1
    ≡ settled candidate (some MeetingAutoEndCheckOutcome.auto_ended) (end_call candidate ∷ [])
end_claimed-settled_example = end_claimed-settled (with answering) candidate answering [] refl
