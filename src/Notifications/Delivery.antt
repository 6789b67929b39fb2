-- ===== src/Notifications/Delivery.antt =====
-- `DeliveryWorker`: one round claims a notification, sends its email, and records what came of it.
pub mod Rounds
use open_community_groups.Prelude.{String, Bool, true, false, Option, none, some, List}
use open_community_groups.Prelude.Result.{Result, ok, err}
use open_community_groups.Prelude.Exec.{Exec, pure, ◌>>=◌, ◌>>◌, handle}
use open_community_groups.Notifications.Types.{
  Notification, EmailDeliveryError, retryable, terminal, to_string, delivery_requeue_base_delay,
  delivery_requeue_max_delay, delivery_max_claims,
}
use open_community_groups.Notifications.Calls.{Call, World}
use open_community_groups.Notifications.Db
use open_community_groups.Notifications.Content.{prepare_content}
use open_community_groups.Notifications.Email.{send_email_with_retries}

module _ (w : World) where
  record_delivery_error : Notification → EmailDeliveryError → Exec Call String (Unit {0})
  unfolding to_string
  record_delivery_error n (retryable e) =
      Db.requeue_notification w n (to_string (retryable e)) delivery_requeue_base_delay
        delivery_requeue_max_delay delivery_max_claims
  record_delivery_error n (terminal e) = Db.update_notification w n (some (to_string (terminal e)))
  record_delivery_error n (EmailDeliveryError.unknown e) =
      Db.mark_notification_delivery_unknown w n (to_string (EmailDeliveryError.unknown e))

  deliver_content : Notification → Result String (String × String) → Exec Call String (Unit {0})
  unfolding record_delivery_error
  deliver_content n (ok (subject, body)) = λ s.
      handle (send_email_with_retries w n.email subject body n.attachments s)
        (λ _. Db.update_notification w n none) (record_delivery_error n)
  deliver_content n (err e) = Db.update_notification w n (some e)

  -- The round from the claimed notification on.
  pub deliver_claimed : Notification → Exec Call String Bool
  unfolding deliver_content
  deliver_claimed n = do deliver_content n (prepare_content w n); pure true

  deliver_option : Option Notification → Exec Call String Bool
  unfolding deliver_claimed
  deliver_option none = pure false
  deliver_option (some n) = deliver_claimed n

  pub deliver_notification : Exec Call String Bool
  unfolding deliver_option
  deliver_notification = do
    notification ← Db.claim_pending_notification w
    deliver_option notification
