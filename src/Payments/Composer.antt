-- ===== src/Payments/Composer.antt =====
-- `PaymentsNotificationComposer`: the messages of the payments flows. Those that are enqueued after
-- a change swallow every error.
use open_community_groups.Prelude.{Bool, true, false, List, String}
use open_community_groups.Prelude.Result.{Result, ok, err}
use open_community_groups.Prelude.Exec.{Exec, ◌>>=◌, handle}
use open_community_groups.Payments.Types.{Uuid, Value, CompletedEventPurchase}
use open_community_groups.Payments.Calls.{Call, EventContext, Notification, World}
use open_community_groups.Payments.Db

pub data EventWelcomeSelfService : Type 0 where
  dashboard_cancellation event_page_refund : EventWelcomeSelfService

include_dashboard_link : EventWelcomeSelfService → Bool
include_dashboard_link dashboard_cancellation = true
include_dashboard_link event_page_refund = false

abbrev pub from_result : {A : Type 0} → Result String A → Exec Call String A
from_result r s = (r, s)

module _ (w : World) where
  unfoldable pub build_refund_approval_template_data : Uuid → Uuid → Exec Call String Value
  build_refund_approval_template_data community_id event_id = do
    context ← Db.load_event_notification_context w community_id event_id
    from_result (w.payloads.refund_approved context)

  unfoldable pub build_refund_request_template_data : Uuid → Uuid → Exec Call String Value
  build_refund_request_template_data community_id event_id = do
    context ← Db.load_event_notification_context w community_id event_id
    from_result (w.payloads.refund_requested context)

  -- The actions below have a trace and no result: a failure is logged and otherwise ignored.
  enqueue_notification : Notification → List Call → List Call
  enqueue_notification n s = (Db.enqueue w n s).1

  enqueue_built : Result String Notification → List Call → List Call
  unfolding enqueue_notification
  enqueue_built (ok n) s = enqueue_notification n s
  enqueue_built (err e) s = s

  -- Loads the context, builds a notification from it and enqueues that, as far as nothing fails.
  enqueue_from_context :
      Uuid → Uuid → (EventContext → Result String Notification) → List Call → List Call
  unfolding enqueue_built
  enqueue_from_context community_id event_id build s =
      handle (Db.load_event_notification_context w community_id event_id s)
        (λ context. enqueue_built (build context)) (λ e s'. s')

  enqueue_event_welcome_notification_with_self_service :
      Uuid → Uuid → Uuid → EventWelcomeSelfService → List Call → List Call
  unfolding enqueue_from_context include_dashboard_link
  enqueue_event_welcome_notification_with_self_service community_id event_id user_id self_service =
      enqueue_from_context community_id event_id
        (λ context. w.payloads.event_welcome context user_id (include_dashboard_link self_service))

  unfoldable pub enqueue_checkout_completed_notification :
      CompletedEventPurchase → List Call → List Call
  unfolding enqueue_event_welcome_notification_with_self_service
  enqueue_checkout_completed_notification p =
      enqueue_event_welcome_notification_with_self_service p.community_id p.event_id p.user_id
        event_page_refund

  unfoldable pub enqueue_event_welcome_notification : Uuid → Uuid → Uuid → List Call → List Call
  unfolding enqueue_event_welcome_notification_with_self_service
  enqueue_event_welcome_notification community_id event_id user_id =
      enqueue_event_welcome_notification_with_self_service community_id event_id user_id
        dashboard_cancellation

  unfoldable pub enqueue_refund_rejection_notification : Uuid → Uuid → Uuid → List Call → List Call
  unfolding enqueue_from_context
  enqueue_refund_rejection_notification community_id event_id user_id =
      enqueue_from_context community_id event_id
        (λ context. w.payloads.refund_rejected context user_id)
