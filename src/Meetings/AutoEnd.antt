-- ===== src/Meetings/AutoEnd.antt =====
-- `MeetingsAutoEndWorker`: one round claims an overdue meeting, ends it at the provider, and records
-- what came of it.
pub mod Outcomes
use open_community_groups.Prelude.{Bool, true, false, Option, none, some, if◌then◌else◌}
use open_community_groups.Prelude.Exec.{Exec, pure, fail, ◌>>=◌, ◌>>◌, handle, map_err}
use open_community_groups.Meetings.Types.{
  MeetingAutoEndCandidate, MeetingAutoEndCheckOutcome, MeetingEndResult, MeetingProviderError,
  SyncError, provider, other, is_retryable,
}
use open_community_groups.Meetings.Calls.{Call, MeetingsProvider, World}
use open_community_groups.Meetings.Db
use open_community_groups.Meetings.Provider

pub end_outcome : MeetingEndResult → MeetingAutoEndCheckOutcome
end_outcome MeetingEndResult.already_not_running = MeetingAutoEndCheckOutcome.already_not_running
end_outcome MeetingEndResult.ended = MeetingAutoEndCheckOutcome.auto_ended

module _ (w : World) where
  record_outcome : MeetingAutoEndCandidate → MeetingAutoEndCheckOutcome → Exec Call SyncError Bool
  record_outcome c o = do map_err other (Db.set_meeting_auto_end_check_outcome w c o); pure true

  -- A retryable error gives the claim back; any other error is an outcome.
  pub end_failed : MeetingAutoEndCandidate → MeetingProviderError → Exec Call SyncError Bool
  unfolding record_outcome
  end_failed c MeetingProviderError.not_found =
      record_outcome c MeetingAutoEndCheckOutcome.not_found
  end_failed c e =
      if is_retryable e
      then (do map_err other (Db.release_meeting_auto_end_check_claim w c); fail (provider e))
      else record_outcome c MeetingAutoEndCheckOutcome.error

  end_at : Option MeetingsProvider → MeetingAutoEndCandidate → Exec Call SyncError Bool
  end_at none c = record_outcome c MeetingAutoEndCheckOutcome.error
  end_at (some p) c = λ s.
      handle (Provider.end_meeting p c.provider_meeting_id s)
        (λ r. record_outcome c (end_outcome r)) (end_failed c)

  unfoldable pub end_claimed : MeetingAutoEndCandidate → Exec Call SyncError Bool
  unfolding end_at end_failed end_outcome record_outcome is_retryable
  end_claimed c = end_at (w.providers c.provider) c

  end_option : Option MeetingAutoEndCandidate → Exec Call SyncError Bool
  end_option none = pure false
  end_option (some c) = end_claimed c

  -- `true` when a candidate was claimed and settled, `false` when there is none to claim.
  pub auto_end_meeting : Exec Call SyncError Bool
  unfolding end_option
  auto_end_meeting = do
    claimed ← map_err other (Db.claim_meeting_for_auto_end w)
    end_option claimed
