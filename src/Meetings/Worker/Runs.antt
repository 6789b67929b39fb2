-- ===== src/Meetings/Worker/Runs.antt =====
-- Whole runs of the meeting workers: what they never do, when they stop, how long they pause.
use open_community_groups.Prelude.{◌≡◌, Bool, true, some, List, [], ◌∷◌, ◌++◌, arith}
use open_community_groups.Prelude.Result.{ok, err}
use open_community_groups.Prelude.Exec.{Exec}
use open_community_groups.Prelude.Loop
use open_community_groups.Prelude.Loop.{Poll}
use open_community_groups.Meetings.Types.{
  Duration, Meeting, SyncError, provider, rate_limit, is_non_retryable, pause_on_sync_error,
  pause_on_sync_none,
}
use open_community_groups.Meetings.Calls.{Call, World}
use open_community_groups.Meetings.Sync.{sync_result, settle_error, sync_claimed, sync_meeting}
use open_community_groups.Meetings.Sync.Calls.{AreAllowed, sync_meeting-AreAllowed}
use open_community_groups.Meetings.Worker.{pause_after, run, run_sync}

module _ (on_none on_error : Duration) (round : Exec Call SyncError Bool) where
  -- A worker makes no further call once it finds the token cancelled at the end of a round: what
  -- the run would have met afterwards does not matter.
  run-append_cancelled :
      (before after : List Poll) (poll : Poll) (s : List Call)
      → poll.at_end ≡ true
      → run on_none on_error round (before ++ (poll ∷ after)) s
        ≡ run on_none on_error round (before ++ (poll ∷ [])) s
  unfolding run
  run-append_cancelled = Loop.run-append_cancelled_lem (pause_after on_none on_error) round

-- Over a whole run of the sync worker, whatever the database and the provider answer and whenever
-- the token is cancelled, every call is allowed after those before it: a provider meeting is created
-- only for a meeting that has a host, has no provider meeting yet and is not to be deleted, and is
-- updated or deleted only under the identifier of the meeting claimed just before, as that asks; the
-- database records what the provider gave for the meeting just before, and deletes only a meeting
-- that is to be deleted and has no identifier, or that the provider just deleted or did not find.
pub run_sync-IsAllowed :
    (w : World) (polls : List Poll) (s : List Call)
    → AreAllowed w s
    → AreAllowed w (run_sync w polls s)
unfolding run_sync run
run_sync-IsAllowed w polls s h =
    Loop.run_keeps (pause_after pause_on_sync_none pause_on_sync_error) (sync_meeting w)
      (AreAllowed w) (sync_meeting-AreAllowed w) polls s h

-- If the provider limits the rate of a claimed meeting's change to one after `d`, and the database
-- takes the claim back, then the worker pauses for exactly `d`.
sync_claimed-rate_limit :
    (w : World) (m : Meeting) (s : List Call) (d : Duration)
    → (sync_result w m s).0 ≡ err (provider (rate_limit d))
    → w.db.release_meeting_sync_claim m (sync_result w m s).1 ≡ ok tt
    → pause_after pause_on_sync_none pause_on_sync_error (sync_claimed w m s).0 ≡ some d
unfolding sync_claimed settle_error is_non_retryable pause_after
sync_claimed-rate_limit w m s d limited released = ground arith
