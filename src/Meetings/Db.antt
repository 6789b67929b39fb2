-- ===== src/Meetings/Db.antt =====
-- The database operations as actions: each records its call and gives the database's answer.
use open_community_groups.Prelude.{ℕ, String, Option, List}
use open_community_groups.Prelude.Exec.{Exec, call}
use open_community_groups.Meetings.Types.{
  Duration, DateTime, Meeting, MeetingAutoEndCandidate, MeetingAutoEndCheckOutcome,
}
use open_community_groups.Meetings.Calls.{DbCall, Call, World}

module _ (w : World) where
  abbrev pub add_meeting : Meeting → Exec Call String (Unit {0})
  add_meeting a = call (Call.db (DbCall.add_meeting a)) (w.db.add_meeting a)

  abbrev pub delete_meeting : Meeting → Exec Call String (Unit {0})
  delete_meeting a = call (Call.db (DbCall.delete_meeting a)) (w.db.delete_meeting a)

  abbrev pub release_meeting_sync_claim : Meeting → Exec Call String (Unit {0})
  release_meeting_sync_claim a =
      call (Call.db (DbCall.release_meeting_sync_claim a)) (w.db.release_meeting_sync_claim a)

  abbrev pub update_meeting : Meeting → Exec Call String (Unit {0})
  update_meeting a = call (Call.db (DbCall.update_meeting a)) (w.db.update_meeting a)

  abbrev pub claim_meeting_for_auto_end : Exec Call String (Option MeetingAutoEndCandidate)
  claim_meeting_for_auto_end =
      call (Call.db DbCall.claim_meeting_for_auto_end) w.db.claim_meeting_for_auto_end

  abbrev pub claim_meeting_out_of_sync : Exec Call String (Option Meeting)
  claim_meeting_out_of_sync =
      call (Call.db DbCall.claim_meeting_out_of_sync) w.db.claim_meeting_out_of_sync

  abbrev pub mark_stale_meeting_auto_end_checks_unknown : Duration → Exec Call String ℕ
  mark_stale_meeting_auto_end_checks_unknown a =
      call (Call.db (DbCall.mark_stale_meeting_auto_end_checks_unknown a))
        (w.db.mark_stale_meeting_auto_end_checks_unknown a)

  abbrev pub mark_stale_meeting_syncs_unknown : Duration → Exec Call String ℕ
  mark_stale_meeting_syncs_unknown a =
      call (Call.db (DbCall.mark_stale_meeting_syncs_unknown a))
        (w.db.mark_stale_meeting_syncs_unknown a)

  abbrev pub release_meeting_auto_end_check_claim :
      MeetingAutoEndCandidate → Exec Call String (Unit {0})
  release_meeting_auto_end_check_claim a =
      call (Call.db (DbCall.release_meeting_auto_end_check_claim a))
        (w.db.release_meeting_auto_end_check_claim a)

  abbrev pub set_meeting_auto_end_check_outcome :
      MeetingAutoEndCandidate → MeetingAutoEndCheckOutcome → Exec Call String (Unit {0})
  set_meeting_auto_end_check_outcome a b =
      call (Call.db (DbCall.set_meeting_auto_end_check_outcome a b))
        (w.db.set_meeting_auto_end_check_outcome a b)

  abbrev pub set_meeting_error : Meeting → String → Exec Call String (Unit {0})
  set_meeting_error a b = call (Call.db (DbCall.set_meeting_error a b)) (w.db.set_meeting_error a b)

  abbrev pub assign_zoom_host_user :
      Meeting → List String → ℕ → DateTime → DateTime → Exec Call String (Option String)
  assign_zoom_host_user a b c d e =
      call (Call.db (DbCall.assign_zoom_host_user a b c d e)) (w.db.assign_zoom_host_user a b c d e)
