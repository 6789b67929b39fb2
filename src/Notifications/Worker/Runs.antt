-- ===== src/Notifications/Worker/Runs.antt =====
-- Whole runs of the delivery worker.
use open_community_groups.Prelude.{◌≤◌, ◌*◌, List, [], arith, count}
use open_community_groups.Prelude.Loop
use open_community_groups.Prelude.Loop.{Poll}
use open_community_groups.Notifications.Calls.{Call, World}
use open_community_groups.Notifications.Email.Sends.{IsSafe, is_send, is_claim}
use open_community_groups.Notifications.Delivery.{deliver_notification}
use open_community_groups.Notifications.Delivery.Rounds.{
  deliver_notification-IsSafe, IsBounded, deliver_notification-IsBounded,
}
use open_community_groups.Notifications.Worker.{pause_after, run_delivery}

-- Over a whole run of the delivery worker, whatever the database and the transport answer, every
-- email that is sent is the one of the notification claimed just before, for a recipient that the
-- whitelist allows; or it was sent just before and failed with an error that lettre reports as none
-- of its client, and as a failure to connect, or as transient or a shutdown of the transport and
-- neither permanent nor one of TLS.
pub run_delivery-IsSafe :
    (w : World) (polls : List Poll) (s : List Call) → IsSafe w s → IsSafe w (run_delivery w polls s)
unfolding run_delivery
run_delivery-IsSafe w polls s h =
    Loop.run_keeps pause_after (deliver_notification w) (IsSafe w) (deliver_notification-IsSafe w)
      polls s h

-- A run of the delivery worker from its start sends at most three emails for each time that it asks
-- for a notification to deliver.
pub run_delivery-count :
    (w : World) (polls : List Poll)
    → count is_send (run_delivery w polls []) ≤ 3 * count is_claim (run_delivery w polls [])
unfolding run_delivery
run_delivery-count w polls =
    Loop.run_keeps pause_after (deliver_notification w) IsBounded (deliver_notification-IsBounded w)
      polls [] (omega arith)
