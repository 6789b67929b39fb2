-- ===== src/Notifications/Worker.antt =====
-- The loops of the three notification workers.
pub mod Runs
use open_community_groups.Prelude.{
  ℕ, String, Bool, true, false, Option, none, some, List, [], ◌∷◌, if◌then◌else◌,
}
use open_community_groups.Prelude.Result.{Result, ok, err}
use open_community_groups.Prelude.Exec.{Exec}
use open_community_groups.Prelude.Loop
use open_community_groups.Prelude.Loop.{Poll}
use open_community_groups.Notifications.Types.{
  Duration, delivery_processing_timeout, pause_on_delivery_error, pause_on_delivery_none,
  pause_on_delivery_recovery_error, pause_on_delivery_recovery_none, pause_on_enqueue_error,
  pause_on_enqueue_none,
}
use open_community_groups.Notifications.Calls.{Call, World}
use open_community_groups.Notifications.Db
use open_community_groups.Notifications.Delivery.{deliver_notification}

-- No pause follows a round that processed a notification.
pause_after : Result String Bool → Option Duration
pause_after (ok true) = none
pause_after (ok false) = some pause_on_delivery_none
pause_after (err e) = some pause_on_delivery_error

-- `DeliveryWorker::run`
pub run_delivery : World → List Poll → List Call → List Call
run_delivery w = Loop.run pause_after (deliver_notification w)

-- `EnqueueWorker::enqueue_due_notifications`
enqueue_due_notifications : World → Exec Call String ℕ
enqueue_due_notifications w = Db.enqueue_due_event_reminders w w.base_url

-- `DeliveryRecoveryWorker::mark_stale_processing_notifications_unknown`
mark_stale_processing_notifications_unknown : World → Exec Call String ℕ
mark_stale_processing_notifications_unknown w =
    Db.mark_stale_processing_notifications_unknown w delivery_processing_timeout

pause_by : Duration → Duration → Result String ℕ → Duration
pause_by on_ok on_error (ok n) = on_ok
pause_by on_ok on_error (err e) = on_error

-- The loop of a worker that pauses after every round; the polls say whether it is cancelled then. Its
-- trace, and the pauses in order.
run_paused :
    (Result String ℕ → Duration)
    → Exec Call String ℕ
    → List Bool
    → List Call
    → List Call × List Duration
run_paused pause round [] s = (s, [])
run_paused pause round (cancelled ∷ polls) s =
    let (r, s') = round s in
    let (s'', pauses) = run_paused pause round polls s' in
    if cancelled then (s', pause r ∷ []) else (s'', pause r ∷ pauses)

-- `EnqueueWorker::run`
run_enqueue : World → List Bool → List Call → List Call × List Duration
unfolding run_paused pause_by enqueue_due_notifications
run_enqueue w =
    run_paused (pause_by pause_on_enqueue_none pause_on_enqueue_error) (enqueue_due_notifications w)

-- `DeliveryRecoveryWorker::run`
run_recovery : World → List Bool → List Call → List Call × List Duration
unfolding run_paused pause_by mark_stale_processing_notifications_unknown
run_recovery w =
    run_paused (pause_by pause_on_delivery_recovery_none pause_on_delivery_recovery_error)
      (mark_stale_processing_notifications_unknown w)
