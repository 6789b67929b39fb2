-- ===== src/Notifications/Tests.antt =====
-- Runs of the delivery worker with a transport that refuses the first connection.
use open_community_groups.Prelude.{
  ◌≡◌, ◌≤◌, ◌*◌, ◌⊎◌, String, true, false, none, some, List, [], ◌∷◌, count, is_empty,
  if◌then◌else◌,
}
use open_community_groups.Prelude.Result.{Result, ok, err}
use open_community_groups.Prelude.Loop.{Poll}
use open_community_groups.Notifications.Types.{
  Notification, event_welcome, SmtpError, EmailDeliveryError,
}
use open_community_groups.Notifications.Calls.{DbNotifications, Call, Lettre, World}
use open_community_groups.Notifications.Email.Sends.{IsSafe, LastSend, Unsent, is_send, is_claim}
use open_community_groups.Notifications.Delivery.{deliver_claimed}
use open_community_groups.Notifications.Delivery.Rounds.{recorded, deliver_claimed-recorded}
use open_community_groups.Notifications.Worker.{run_delivery}
use open_community_groups.Notifications.Worker.Runs.{run_delivery-IsSafe, run_delivery-count}

abbrev notification : Notification
notification = record {
  attachments = [];
  delivery_claimed_at = 100;
  email = "ada@example.org";
  kind = event_welcome;
  notification_id = 7;
  template_data = some "{}";
}

-- One notification is pending, at the start.
abbrev database : DbNotifications
database = record {
  claim_pending_notification = λ s. ok (if is_empty s then some notification else none);
  enqueue_due_event_reminders = λ u s. ok 0;
  mark_notification_delivery_unknown = λ n e s. ok tt;
  mark_stale_processing_notifications_unknown = λ d s. ok 0;
  requeue_notification = λ n e a b c s. ok tt;
  update_notification = λ n e s. ok tt;
}

abbrev lettre : Lettre
lettre = record {
  parse_address = λ a. ok a;
  parse_mailbox = λ a. ok a;
  parse_content_type = λ a. ok a;
  singlepart = λ m. ok m.subject;
  multipart = λ m. ok m.subject;
}

abbrev refused : SmtpError
refused = record {
  is_client = false;
  is_permanent = false;
  is_tls = false;
  is_transient = false;
  is_transport_shutdown = false;
  text = "Connection error: refused";
}

abbrev transport : String → List Call → Result SmtpError (Unit {0})
transport m (Call.sleep d ∷ s) = ok tt
transport m _ = err refused

abbrev world : World
world = record {
  base_url = "https://example.org";
  cfg = record { from_address = "ocg@example.org"; from_name = "OCG"; rcpts_whitelist = none };
  db = database;
  from_value = λ k v. ok (record { event_name = "Meetup"; subject = ""; render = ok "<p>" });
  lettre = lettre;
  transport = transport;
}

abbrev polls : List Poll
polls =
    record { in_pause = false; at_end = false } ∷ record { in_pause = true; at_end = false } ∷ []

run_delivery-IsSafe_example : IsSafe world (run_delivery world polls [])
run_delivery-IsSafe_example = run_delivery-IsSafe world polls [] tt

run_delivery-count_example :
    count is_send (run_delivery world polls []) ≤ 3 * count is_claim (run_delivery world polls [])
run_delivery-count_example = run_delivery-count world polls

deliver_claimed-recorded_example :
    (r : Result EmailDeliveryError (Unit {0})) × (t : List Call) × ((deliver_claimed world
        notification []).1
      ≡ Call.db (recorded notification r) ∷ t)
    × (LastSend world r t ⊎ ((t ≡ []) × Unsent world notification.email r))
deliver_claimed-recorded_example = deliver_claimed-recorded world notification []
