-- ===== src/Meetings/Recovery.antt =====
-- `MeetingsClaimRecoveryWorker`: one round marks the claims that were abandoned.
use open_community_groups.Prelude.{ℕ, ◌+◌, String}
use open_community_groups.Prelude.Exec.{Exec, pure, ◌>>=◌}
use open_community_groups.Meetings.Types.{meeting_processing_timeout}
use open_community_groups.Meetings.Calls.{Call, World}
use open_community_groups.Meetings.Db

pub mark_stale_meeting_claims_unknown : World → Exec Call String ℕ
mark_stale_meeting_claims_unknown w = do
  auto_end_count ← Db.mark_stale_meeting_auto_end_checks_unknown w meeting_processing_timeout
  sync_count ← Db.mark_stale_meeting_syncs_unknown w meeting_processing_timeout
  pure (auto_end_count + sync_count)
