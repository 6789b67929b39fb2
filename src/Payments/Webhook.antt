-- ===== src/Payments/Webhook.antt =====
-- services/payments/webhook_reconciler.rs: verified provider events reconciled with the purchases
-- and refunds of the database.
pub mod Validation
pub mod Guards
use open_community_groups.Prelude.{
  String, Bool, true, false, not, ◌&&◌, ◌||◌, Option, none, some, List, ◌==◌, nat_eq, string_eq,
  option_same, if◌then◌else◌, is_some,
}
use open_community_groups.Prelude.Result.{Result, ok, err}
use open_community_groups.Prelude.Exec.{Exec, pure, fail, or_fail, ◌>>=◌, ◌>>◌, handle}
use open_community_groups.Payments.Types.{
  Amount, Text, Uuid, PaymentProvider, same_provider, EventPurchaseSummary, EventPurchaseRefund,
  EventPurchaseStatus, EventPurchaseRefundStatus, RefundPaymentStatus, is_failed,
  RefundPaymentResult, RefundUpdate, PaymentsWebhookEvent, checkout_completed, checkout_expired,
  noop, refund_updated, ReconcileEventPurchaseResult, eq_ignore_ascii_case,
}
use open_community_groups.Payments.Calls.{Call, PaymentsProvider, World}
use open_community_groups.Payments.Db
use open_community_groups.Payments.Provider
use open_community_groups.Payments.Composer.{from_result, enqueue_checkout_completed_notification}
use open_community_groups.Payments.Recorder.{persist_provider_refund_result}
use Validation.{reject_if, validate_refund_purchase_event, validate_refund_event}

abbrev Action : Type 0 → Type 0
Action = Exec Call String

awaits_refund : EventPurchaseStatus → Bool
awaits_refund EventPurchaseStatus.refund_pending = true
awaits_refund EventPurchaseStatus.refund_requested = true
awaits_refund EventPurchaseStatus.refunded = true
awaits_refund EventPurchaseStatus.refund_recovery_pending = true
awaits_refund _ = false

is_provider_failed : EventPurchaseRefundStatus → Bool
is_provider_failed EventPurchaseRefundStatus.provider_failed = true
is_provider_failed _ = false

-- The refund is finalized, or the provider's success is recorded.
pub has_succeeded : EventPurchaseRefundStatus → Bool
has_succeeded EventPurchaseRefundStatus.finalized = true
has_succeeded EventPurchaseRefundStatus.provider_succeeded = true
has_succeeded _ = false

is_success : RefundPaymentStatus → Bool
is_success RefundPaymentStatus.succeeded = true
is_success _ = false

module _ (w : World) (p : PaymentsProvider) where
  load_refund_for_purchase : EventPurchaseSummary → Action EventPurchaseRefund
  unfolding awaits_refund
  load_refund_for_purchase purchase =
      if awaits_refund purchase.status
      then Db.get_event_purchase_refund w purchase.event_purchase_id
      else fail "event purchase is not awaiting a refund"

  pub load_validated_refund_for_event :
      EventPurchaseSummary → RefundUpdate → Action EventPurchaseRefund
  unfolding load_refund_for_purchase validate_refund_purchase_event
  load_validated_refund_for_event purchase u = do
    from_result (
        validate_refund_purchase_event purchase u.amount_minor u.currency_code
          u.provider_payment_reference)
    load_refund_for_purchase purchase

  -- A success of a refund that is not pinned is believed only as far as the provider confirms it.
  refresh_unpinned_success_status : EventPurchaseRefund → RefundUpdate → Action RefundPaymentStatus
  unfolding is_success
  refresh_unpinned_success_status refund u =
      if is_success u.status && not (is_some refund.provider_refund_id)
      then (do
        found ← Provider.find_refund p (record {
          amount_minor = refund.amount_minor;
          provider_payment_reference = u.provider_payment_reference;
          purchase_id = refund.event_purchase_id;
          provider_refund_id = some u.provider_refund_id;
        })
        result ← or_fail found "provider refund not found"
        from_result (
            reject_if (not (result.provider_refund_id == u.provider_refund_id))
              "provider refund id does not match webhook")
        pure result.status)
      else pure u.status

  reconcile_refund_status : EventPurchaseRefund → String → RefundPaymentStatus → Action (Unit {0})
  unfolding persist_provider_refund_result
  reconcile_refund_status refund id status = do
    persist_provider_refund_result w refund (record { provider_refund_id = id; status = status })
    pure tt

  -- Whether a valid event of the current attempt is to be left alone.
  is_outdated : EventPurchaseRefund → RefundPaymentStatus → Bool
  unfolding is_provider_failed has_succeeded
  is_outdated refund status =
      not (is_failed status)
      && (is_provider_failed refund.status && refund.terminal_failure
          || has_succeeded refund.status)

  apply_refund_update : EventPurchaseRefund → RefundUpdate → Action (Unit {0})
  unfolding refresh_unpinned_success_status reconcile_refund_status
  apply_refund_update refund u = do
    status ← refresh_unpinned_success_status refund u
    reconcile_refund_status refund u.provider_refund_id status

  -- What is left to do once the purchase and its refund are loaded.
  pub update_refund : EventPurchaseSummary → EventPurchaseRefund → RefundUpdate → Action (Unit {0})
  unfolding validate_refund_event is_outdated apply_refund_update
  update_refund purchase refund u = do
    is_current ← from_result (validate_refund_event purchase refund p.provider u)
    if not is_current
        then pure tt
        else if is_outdated refund u.status
        then pure tt
        else apply_refund_update refund u

  unfoldable pub handle_refund_updated : RefundUpdate → Action (Unit {0})
  unfolding load_validated_refund_for_event update_refund
  handle_refund_updated u = do
    purchase ← Db.get_event_purchase_summary w u.purchase_id
    refund ← load_validated_refund_for_event purchase u
    update_refund purchase refund u

  expire_checkout_session : String → Action (Unit {0})
  expire_checkout_session id = Db.expire_event_purchase_for_checkout_session w p.provider id

  -- The attendee is notified only of a purchase that is completed.
  notify_completed : ReconcileEventPurchaseResult → List Call → List Call
  unfolding enqueue_checkout_completed_notification
  notify_completed (ReconcileEventPurchaseResult.completed c) s =
      enqueue_checkout_completed_notification w c s
  notify_completed ReconcileEventPurchaseResult.noop s = s
  notify_completed ReconcileEventPurchaseResult.refund_queued s = s

  handle_completed_checkout : String → Option String → Action (Unit {0})
  unfolding notify_completed
  handle_completed_checkout session reference s =
      handle (Db.reconcile_event_purchase_for_checkout_session w p.provider session reference s)
        (λ r s'. pure tt (notify_completed r s')) fail

  unfoldable pub handle_webhook_event : PaymentsWebhookEvent → Action (Unit {0})
  unfolding handle_completed_checkout expire_checkout_session handle_refund_updated
  handle_webhook_event (checkout_completed session reference) =
      handle_completed_checkout session reference
  handle_webhook_event (checkout_expired session) = expire_checkout_session session
  handle_webhook_event noop = pure tt
  handle_webhook_event (refund_updated u) = handle_refund_updated u
