-- ===== src/Notifications/Content.antt =====
-- `DeliveryWorker::prepare_content`: the subject and the body of an email.
use Prim.Native.String.{◌++◌ as ◌++ˢ◌}
use open_community_groups.Prelude.{String}
use open_community_groups.Prelude.Result.{Result, ok, ◌>>=◌, ok_or}
use open_community_groups.Notifications.Types.{
  NotificationKind, Notification, cfs_submission_updated, community_team_invitation,
  email_verification, event_attendance_canceled, event_canceled, event_custom, event_invitation,
  event_published, event_refund_approved, event_refund_rejected, event_refund_requested,
  event_reminder, event_rescheduled, event_series_canceled, event_series_published,
  event_waitlist_joined, event_waitlist_left, event_waitlist_promoted, event_welcome, group_custom,
  group_team_invitation, group_welcome, session_proposal_co_speaker_invitation,
  speaker_series_welcome, speaker_welcome,
}
use open_community_groups.Notifications.Calls.{Template, World}

subject_of : NotificationKind → Template → String
subject_of cfs_submission_updated template = "Submission update: " ++ˢ template.event_name
subject_of community_team_invitation template = "You have been invited to join a community team"
subject_of email_verification template = "Verify your email address"
subject_of event_attendance_canceled template = "Attendance canceled"
subject_of event_canceled template = "Event canceled"
subject_of event_custom template = template.subject
subject_of event_invitation template = "You have been invited to an event"
subject_of event_published template = "New event published"
subject_of event_refund_approved template = "Refund approved"
subject_of event_refund_rejected template = "Refund request update"
subject_of event_refund_requested template = "Refund requested"
subject_of event_reminder template =
    "Reminder: " ++ˢ (template.event_name ++ˢ " starts in 24 hours")
subject_of event_rescheduled template = "Event rescheduled"
subject_of event_series_canceled template = "Events canceled"
subject_of event_series_published template = "New events published"
subject_of event_waitlist_joined template = "You joined the waiting list"
subject_of event_waitlist_left template = "You left the waiting list"
subject_of event_waitlist_promoted template = "You moved off the waiting list"
subject_of event_welcome template = "Welcome to the event"
subject_of group_custom template = template.subject
subject_of group_team_invitation template = "You have been invited to join a group team"
subject_of group_welcome template = "Welcome to the group"
subject_of session_proposal_co_speaker_invitation template =
    "Session proposal co-speaker invitation"
subject_of speaker_series_welcome template = "You're speaking at upcoming events"
subject_of speaker_welcome template = "You're speaking at an event"

pub prepare_content : World → Notification → Result String (String × String)
unfolding subject_of
prepare_content w n = do
  template_data ← ok_or n.template_data "missing template data"
  template ← w.from_value n.kind template_data
  body ← template.render
  ok (subject_of n.kind template, body)
