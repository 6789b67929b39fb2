-- ===== src/Notifications/Types.antt =====
-- The data types and constants of services/notifications.rs. A `Uuid` is its 128 bits as a number, a
-- `DateTime<Utc>` and a `Duration` their seconds, a JSON `Value` its text, attachment data a text,
-- and an `anyhow::Error` the text that it displays.
use open_community_groups.Prelude.{ℕ, String, Bool, true, false, Option, List, if◌then◌else◌}
use text.Mathlib.Text.{starts_with}

abbrev pub Duration : Type 0
Duration = ℕ

pub data NotificationKind : Type 0 where
  cfs_submission_updated community_team_invitation email_verification : NotificationKind
  event_attendance_canceled event_canceled event_custom event_invitation : NotificationKind
  event_published event_refund_approved event_refund_rejected : NotificationKind
  event_refund_requested event_reminder event_rescheduled event_series_canceled : NotificationKind
  event_series_published event_waitlist_joined event_waitlist_left : NotificationKind
  event_waitlist_promoted event_welcome group_custom group_team_invitation : NotificationKind
  group_welcome session_proposal_co_speaker_invitation : NotificationKind
  speaker_series_welcome speaker_welcome : NotificationKind

pub record Attachment : Type 0 where
  pub content_type : String
  pub file_content : String
  pub file_name : String

pub record Notification : Type 0 where
  pub attachments : List Attachment
  pub delivery_claimed_at : ℕ
  pub email : String
  pub kind : NotificationKind
  pub notification_id : ℕ
  pub template_data : Option String

pub record EmailConfig : Type 0 where
  pub from_address : String
  pub from_name : String
  pub rcpts_whitelist : Option (List String)

-- Lettre's error, by what it answers when it is asked.
pub record SmtpError : Type 0 where
  pub is_client : Bool
  pub is_permanent : Bool
  pub is_tls : Bool
  pub is_transient : Bool
  pub is_transport_shutdown : Bool
  pub text : String

pub data SmtpErrorKind : Type 0 where
  client connection permanent tls transient transport_shutdown unknown : SmtpErrorKind

pub data EmailDeliveryError : Type 0 where
  retryable terminal unknown : String → EmailDeliveryError

-- `EmailDeliveryError::from_smtp_kind`
from_smtp_kind : SmtpErrorKind → String → EmailDeliveryError
from_smtp_kind SmtpErrorKind.client e = terminal e
from_smtp_kind SmtpErrorKind.permanent e = terminal e
from_smtp_kind SmtpErrorKind.tls e = terminal e
from_smtp_kind SmtpErrorKind.connection e = retryable e
from_smtp_kind SmtpErrorKind.transient e = retryable e
from_smtp_kind SmtpErrorKind.transport_shutdown e = retryable e
from_smtp_kind SmtpErrorKind.unknown e = EmailDeliveryError.unknown e

smtp_kind : SmtpError → SmtpErrorKind
smtp_kind e =
    if e.is_client
    then SmtpErrorKind.client
    else if starts_with e.text "Connection error"
    then SmtpErrorKind.connection
    else if e.is_permanent
    then SmtpErrorKind.permanent
    else if e.is_tls
    then SmtpErrorKind.tls
    else if e.is_transient
    then SmtpErrorKind.transient
    else if e.is_transport_shutdown
    then SmtpErrorKind.transport_shutdown
    else SmtpErrorKind.unknown

-- `EmailDeliveryError::from_smtp`
unfoldable pub from_smtp : SmtpError → EmailDeliveryError
unfolding smtp_kind from_smtp_kind
from_smtp e = from_smtp_kind (smtp_kind e) e.text

unfoldable pub is_retryable : EmailDeliveryError → Bool
is_retryable (retryable e) = true
is_retryable _ = false

unfoldable pub to_string : EmailDeliveryError → String
to_string (retryable e) = e
to_string (terminal e) = e
to_string (EmailDeliveryError.unknown e) = e

abbrev pub delivery_max_claims : ℕ
delivery_max_claims = 10

abbrev pub delivery_processing_timeout : Duration
delivery_processing_timeout = 900

abbrev pub delivery_requeue_base_delay : Duration
delivery_requeue_base_delay = 60

abbrev pub delivery_requeue_max_delay : Duration
delivery_requeue_max_delay = 1800

abbrev pub delivery_send_max_attempts : ℕ
delivery_send_max_attempts = 3

abbrev pub pause_on_delivery_error : Duration
pause_on_delivery_error = 10

abbrev pub pause_on_delivery_none : Duration
pause_on_delivery_none = 15

abbrev pub pause_on_delivery_recovery_error : Duration
pause_on_delivery_recovery_error = 30

abbrev pub pause_on_delivery_recovery_none : Duration
pause_on_delivery_recovery_none = 60

abbrev pub pause_on_delivery_retry : Duration
pause_on_delivery_retry = 5

abbrev pub pause_on_enqueue_error : Duration
pause_on_enqueue_error = 30

abbrev pub pause_on_enqueue_none : Duration
pause_on_enqueue_none = 300
