-- ===== src/Payments/Manager.antt =====
-- services/payments/manager.rs: `PgPaymentsManager`, the operations that the handlers call.
pub mod Checkout
pub mod Effects
use open_community_groups.Prelude.{
  String, Bool, true, false, not, Option, none, some, List, if◌then◌else◌,
}
use open_community_groups.Prelude.Result.{Result, ok, err}
use open_community_groups.Prelude.Exec.{Exec, pure, fail, or_fail, ◌>>=◌, ◌>>◌, handle, map_err}
use open_community_groups.Payments.Types.{
  Uuid, Value, same_provider, PreparedEventCheckout, CreateCheckoutSessionInput,
  EventPurchaseRefundRecoveryContext, PaymentsWebhookEvent, ApproveRefundRequestInput,
  RejectRefundRequestInput, RequestRefundInput, CompleteRefundRecoveryInput, HandleWebhookError,
  invalid_payload, payments_not_configured, unexpected,
}
use open_community_groups.Payments.Calls.{Call, PaymentsProvider, World}
use open_community_groups.Payments.Db
use open_community_groups.Payments.Provider
use open_community_groups.Payments.Composer.{
  build_refund_approval_template_data, build_refund_request_template_data,
  enqueue_event_welcome_notification, enqueue_refund_rejection_notification,
}
use open_community_groups.Payments.Webhook.{handle_webhook_event}

abbrev Action : Type 0 → Type 0
Action = Exec Call String

-- A step with no result, such as a notification, after which the action succeeds.
abbrev then_done : (List Call → List Call) → Action (Unit {0})
then_done step s = (ok tt, step s)

module _ (w : World) where
  unfoldable pub approve_refund_request : ApproveRefundRequestInput → Action (Unit {0})
  approve_refund_request i =
      Db.queue_event_refund_request_approval w i.actor_user_id i.group_id i.event_purchase_id
        i.review_note

  -- The notification is composed only where the local finalization is still to come.
  recovery_template_data : EventPurchaseRefundRecoveryContext → Bool → Action (Option Value)
  unfolding build_refund_approval_template_data
  recovery_template_data c true = do
    data_text ← build_refund_approval_template_data w c.community_id c.event_id
    pure (some data_text)
  recovery_template_data c false = pure none

  unfoldable pub complete_refund_recovery : CompleteRefundRecoveryInput → Action (Unit {0})
  unfolding recovery_template_data
  complete_refund_recovery i = do
    c ← Db.get_event_purchase_refund_recovery_context w i.group_id i.event_purchase_id
    template_data ← recovery_template_data c c.notification_required
    Db.complete_event_purchase_refund_recovery w i.actor_user_id i.group_id
        c.event_purchase_refund_id i.recovery_reference i.recovery_note template_data

  unfoldable pub complete_free_checkout : Uuid → Uuid → Uuid → Uuid → Action (Unit {0})
  unfolding enqueue_event_welcome_notification
  complete_free_checkout community_id event_id event_purchase_id user_id = do
    Db.complete_free_event_purchase w event_purchase_id
    then_done (enqueue_event_welcome_notification w community_id event_id user_id)

  checkout_input : PreparedEventCheckout → Uuid → CreateCheckoutSessionInput
  checkout_input c user_id = record {
    amount_minor = c.purchase.amount_minor;
    base_url = w.base_url;
    community_name = c.community_name;
    currency_code = c.purchase.currency_code;
    event_id = c.event_id;
    event_slug = c.event_slug;
    group_slug = c.group_slug;
    purchase_id = c.purchase.event_purchase_id;
    recipient = c.recipient;
    ticket_title = c.purchase.ticket_title;
    user_id = user_id;
    discount_code = c.purchase.discount_code;
    group_slug_pretty = c.group_slug_pretty;
  }

  create_redirect_url : PreparedEventCheckout → Uuid → PaymentsProvider → Action String
  unfolding checkout_input
  create_redirect_url c user_id p = do
    session ← Provider.create_checkout_session p (checkout_input c user_id)
    Db.attach_checkout_session_to_event_purchase w c.purchase.event_purchase_id p.provider session
    purchase ← Db.get_event_purchase_summary w c.purchase.event_purchase_id
    or_fail purchase.provider_checkout_url
        "provider checkout URL is missing after checkout creation"

  unfoldable pub get_or_create_checkout_redirect_url : PreparedEventCheckout → Uuid → Action String
  unfolding create_redirect_url
  get_or_create_checkout_redirect_url c user_id = elim c.purchase.provider_checkout_url [
    | some url ↦ pure url
    | none ↦ do
      p ← or_fail w.payments_provider "payments are not configured"
      if not (same_provider c.recipient.provider p.provider)
          then fail "group payments recipient is not configured for this provider"
          else create_redirect_url c user_id p
  ]

  handle_verified :
      PaymentsProvider
      → Result String PaymentsWebhookEvent
      → Exec Call HandleWebhookError (Unit {0})
  unfolding handle_webhook_event
  handle_verified p (err e) = fail invalid_payload
  handle_verified p (ok event) = map_err unexpected (handle_webhook_event w p event)

  unfoldable pub handle_webhook : String → String → Exec Call HandleWebhookError (Unit {0})
  unfolding handle_verified
  handle_webhook headers body = do
    p ← or_fail w.payments_provider payments_not_configured
    handle_verified p (p.verify_and_parse_webhook headers body)

  unfoldable pub reject_refund_request : RejectRefundRequestInput → Action (Unit {0})
  unfolding enqueue_refund_rejection_notification
  reject_refund_request i = do
    purchase ←
        Db.reject_event_refund_request w i.actor_user_id i.group_id i.event_purchase_id
          i.review_note
    then_done (
        enqueue_refund_rejection_notification w purchase.community_id purchase.event_id
          purchase.user_id)

  unfoldable pub request_refund : RequestRefundInput → Action (Unit {0})
  unfolding build_refund_request_template_data
  request_refund i = do
    template_data ← build_refund_request_template_data w i.community_id i.event_id
    Db.request_event_refund w i.community_id i.event_id i.user_id i.requested_reason template_data
