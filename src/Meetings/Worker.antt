-- ===== src/Meetings/Worker.antt =====
-- The loops of the three meeting workers. Each round's polls of the cancellation token are inputs: a
-- list of them is as much of a run as is looked at.
pub mod Runs
use open_community_groups.Prelude.{
  ℕ, String, Bool, true, false, Option, none, some, List, [], ◌∷◌, if◌then◌else◌, unwrap_or,
}
use open_community_groups.Prelude.Result.{Result, ok, err}
use open_community_groups.Prelude.Exec.{Exec}
use open_community_groups.Prelude.Loop
use open_community_groups.Prelude.Loop.{Poll}
use open_community_groups.Meetings.Types.{
  Duration, SyncError, retry_after, pause_on_auto_end_error, pause_on_auto_end_none,
  pause_on_claim_recovery_error, pause_on_claim_recovery_none, pause_on_sync_error,
  pause_on_sync_none,
}
use open_community_groups.Meetings.Calls.{Call, World}
use open_community_groups.Meetings.Sync.{sync_meeting}
use open_community_groups.Meetings.AutoEnd.{auto_end_meeting}
use open_community_groups.Meetings.Recovery.{mark_stale_meeting_claims_unknown}

-- The pause after a round; no pause after one that processed something.
pub pause_after : Duration → Duration → Result SyncError Bool → Option Duration
unfolding retry_after
pause_after on_none on_error (ok true) = none
pause_after on_none on_error (ok false) = some on_none
pause_after on_none on_error (err e) = some (unwrap_or on_error (retry_after e))

-- `run` of the sync and auto-end workers: the trace of a run over some polls.
pub run : Duration → Duration → Exec Call SyncError Bool → List Poll → List Call → List Call
run on_none on_error round = Loop.run (pause_after on_none on_error) round

pub run_sync : World → List Poll → List Call → List Call
unfolding run
run_sync w = run pause_on_sync_none pause_on_sync_error (sync_meeting w)

pub run_auto_end : World → List Poll → List Call → List Call
unfolding run
run_auto_end w = run pause_on_auto_end_none pause_on_auto_end_error (auto_end_meeting w)

recovery_pause : Result String ℕ → Duration
recovery_pause (ok n) = pause_on_claim_recovery_none
recovery_pause (err e) = pause_on_claim_recovery_error

-- `run` of the claim recovery worker, which pauses after every round.
pub run_recovery : World → List Bool → List Call → List Call × List Duration
unfolding recovery_pause
run_recovery w [] s = (s, [])
run_recovery w (cancelled ∷ polls) s =
    let (r, s') = mark_stale_meeting_claims_unknown w s in
    let (s'', pauses) = run_recovery w polls s' in
    let pause = recovery_pause r in if cancelled then (s', pause ∷ []) else (s'', pause ∷ pauses)
