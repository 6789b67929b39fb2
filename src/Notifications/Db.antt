-- ===== src/Notifications/Db.antt =====
-- The database operations as actions: each records its call and gives the database's answer.
use open_community_groups.Prelude.{ℕ, String, Option}
use open_community_groups.Prelude.Exec.{Exec, call}
use open_community_groups.Notifications.Types.{Duration, Notification}
use open_community_groups.Notifications.Calls.{DbCall, Call, World}

module _ (w : World) where
  abbrev pub claim_pending_notification : Exec Call String (Option Notification)
  claim_pending_notification =
      call (Call.db DbCall.claim_pending_notification) w.db.claim_pending_notification

  abbrev pub enqueue_due_event_reminders : String → Exec Call String ℕ
  enqueue_due_event_reminders a =
      call (Call.db (DbCall.enqueue_due_event_reminders a)) (w.db.enqueue_due_event_reminders a)

  abbrev pub mark_notification_delivery_unknown :
      Notification → String → Exec Call String (Unit {0})
  mark_notification_delivery_unknown a b =
      call (Call.db (DbCall.mark_notification_delivery_unknown a b))
        (w.db.mark_notification_delivery_unknown a b)

  abbrev pub mark_stale_processing_notifications_unknown : Duration → Exec Call String ℕ
  mark_stale_processing_notifications_unknown a =
      call (Call.db (DbCall.mark_stale_processing_notifications_unknown a))
        (w.db.mark_stale_processing_notifications_unknown a)

  abbrev pub requeue_notification :
      Notification → String → Duration → Duration → ℕ → Exec Call String (Unit {0})
  requeue_notification a b c d e =
      call (Call.db (DbCall.requeue_notification a b c d e)) (w.db.requeue_notification a b c d e)

  abbrev pub update_notification : Notification → Option String → Exec Call String (Unit {0})
  update_notification a b =
      call (Call.db (DbCall.update_notification a b)) (w.db.update_notification a b)
