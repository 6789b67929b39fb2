-- ===== src/Notifications/Calls.antt =====
-- The calls that the workers of services/notifications.rs make, and the outside that answers them:
-- the trait `DBNotifications` (db/notifications.rs), the SMTP transport, and the libraries that
-- decode and render templates and build messages. Every answer of the database and the transport
-- may depend on the trace of all calls made before it.
use open_community_groups.Prelude.{ℕ, String, Option, List}
use open_community_groups.Prelude.Result.{Result}
use open_community_groups.Notifications.Types.{
  Duration, NotificationKind, Notification, EmailConfig, SmtpError,
}

pub data DbCall : Type 0 where
  claim_pending_notification : DbCall
  enqueue_due_event_reminders : String → DbCall
  mark_notification_delivery_unknown : Notification → String → DbCall
  mark_stale_processing_notifications_unknown : Duration → DbCall
  requeue_notification : Notification → String → Duration → Duration → ℕ → DbCall
  update_notification : Notification → Option String → DbCall

-- A formatted message, as lettre sends it.
abbrev pub Message : Type 0
Message = String

pub data Call : Type 0 where
  db : DbCall → Call
  send : Message → Call
  sleep : Duration → Call

abbrev pub Answer : Type 0 → Type 0 → Type 0
Answer E A = List Call → Result E A

pub record DbNotifications : Type 0 where
  pub claim_pending_notification : Answer String (Option Notification)
  pub enqueue_due_event_reminders : String → Answer String ℕ
  pub mark_notification_delivery_unknown : Notification → String → Answer String (Unit {0})
  pub mark_stale_processing_notifications_unknown : Duration → Answer String ℕ
  pub requeue_notification :
      Notification → String → Duration → Duration → ℕ → Answer String (Unit {0})
  pub update_notification : Notification → Option String → Answer String (Unit {0})

-- The parts of a message that is not yet built, its attachments with their parsed types.
pub record MessageParts : Type 0 where
  pub from_name : String
  pub from_address : String
  pub to : String
  pub subject : String
  pub body : String
  pub attachments : List (String × String × String)

-- What lettre parses and builds.
pub record Lettre : Type 0 where
  pub parse_address : String → Result String String
  pub parse_mailbox : String → Result String String
  pub parse_content_type : String → Result String String
  pub singlepart : MessageParts → Result String Message
  pub multipart : MessageParts → Result String Message

-- The data of a notification decoded for its kind, by what is used of it: the rendered body, and
-- the fields `event.name` and `subject` of the kinds that have them.
pub record Template : Type 0 where
  pub event_name : String
  pub subject : String
  pub render : Result String String

-- What a worker holds.
pub record World : Type 0 where
  pub base_url : String
  pub cfg : EmailConfig
  pub db : DbNotifications
  pub from_value : NotificationKind → String → Result String Template
  pub lettre : Lettre
  pub transport : Message → Answer SmtpError (Unit {0})
