-- ===== src/Payments/Calls.antt =====
-- The calls that the payments services make, and the outside that answers them. Every answer may
-- depend on the trace of all calls made before it.
use open_community_groups.Prelude.{ℕ, String, Bool, Option, List}
use open_community_groups.Prelude.Result.{Result}
use open_community_groups.Payments.Types.{
  Uuid, Value, PaymentProvider, EventPurchaseSummary, EventPurchaseRefund,
  ClaimedEventPurchaseRefund, EventPurchaseRefundRecoveryContext, ReconcileEventPurchaseResult,
  CompletedEventPurchase, CheckoutSession, CreateCheckoutSessionInput, FindRefundInput,
  RefundPaymentInput, RefundPaymentResult, PaymentsWebhookEvent,
}

-- An event's summary with the site's settings, and a composed notification, as JSON text.
abbrev pub EventContext : Type 0
EventContext = String

abbrev pub Notification : Type 0
Notification = String

-- The database operations that these services use, with `NotificationsManager::enqueue`.
pub data DbCall : Type 0 where
  attach_checkout_session_to_event_purchase : Uuid → PaymentProvider → CheckoutSession → DbCall
  claim_event_purchase_refund : PaymentProvider → DbCall
  complete_event_purchase_refund_recovery :
      Uuid → Uuid → Uuid → String → String → Option Value → DbCall
  complete_free_event_purchase : Uuid → DbCall
  expire_event_purchase_for_checkout_session : PaymentProvider → String → DbCall
  finalize_event_purchase_refund : Uuid → Uuid → Value → DbCall
  get_event_purchase_refund : Uuid → DbCall
  get_event_purchase_refund_recovery_context : Uuid → Uuid → DbCall
  get_event_purchase_summary : Uuid → DbCall
  queue_event_refund_request_approval : Uuid → Uuid → Uuid → Option String → DbCall
  reconcile_event_purchase_for_checkout_session : PaymentProvider → String → Option String → DbCall
  record_event_purchase_refund_pending : Uuid → String → String → Option Uuid → DbCall
  record_event_purchase_refund_retryable_failure : Uuid → Uuid → String → DbCall
  record_event_purchase_refund_succeeded : Uuid → String → String → Option Uuid → DbCall
  record_event_purchase_refund_terminal_failed :
      Uuid → String → String → String → Option Uuid → DbCall
  reject_event_refund_request : Uuid → Uuid → Uuid → Option String → DbCall
  request_event_refund : Uuid → Uuid → Uuid → Option String → Value → DbCall
  requeue_stale_event_purchase_refund_claims : DbCall
  load_event_notification_context : Uuid → Uuid → DbCall
  enqueue : Notification → DbCall

-- The operations of the trait `PaymentsProvider` that reach the provider.
pub data ProviderCall : Type 0 where
  create_checkout_session : CreateCheckoutSessionInput → ProviderCall
  find_refund : FindRefundInput → ProviderCall
  refund_payment : RefundPaymentInput → ProviderCall

pub data Call : Type 0 where
  db : DbCall → Call
  provider : ProviderCall → Call

-- What an operation answers after a trace.
abbrev pub Answer : Type 0 → Type 0
Answer A = List Call → Result String A

pub record Database : Type 0 where
  pub attach_checkout_session_to_event_purchase :
      Uuid → PaymentProvider → CheckoutSession → Answer (Unit {0})
  pub claim_event_purchase_refund : PaymentProvider → Answer (Option ClaimedEventPurchaseRefund)
  pub complete_event_purchase_refund_recovery :
      Uuid → Uuid → Uuid → String → String → Option Value → Answer (Unit {0})
  pub complete_free_event_purchase : Uuid → Answer (Unit {0})
  pub expire_event_purchase_for_checkout_session : PaymentProvider → String → Answer (Unit {0})
  pub finalize_event_purchase_refund : Uuid → Uuid → Value → Answer (Unit {0})
  pub get_event_purchase_refund : Uuid → Answer EventPurchaseRefund
  pub get_event_purchase_refund_recovery_context :
      Uuid → Uuid → Answer EventPurchaseRefundRecoveryContext
  pub get_event_purchase_summary : Uuid → Answer EventPurchaseSummary
  pub queue_event_refund_request_approval : Uuid → Uuid → Uuid → Option String → Answer (Unit {0})
  pub reconcile_event_purchase_for_checkout_session :
      PaymentProvider → String → Option String → Answer ReconcileEventPurchaseResult
  pub record_event_purchase_refund_pending :
      Uuid → String → String → Option Uuid → Answer (Unit {0})
  pub record_event_purchase_refund_retryable_failure : Uuid → Uuid → String → Answer (Unit {0})
  pub record_event_purchase_refund_succeeded :
      Uuid → String → String → Option Uuid → Answer (Unit {0})
  pub record_event_purchase_refund_terminal_failed :
      Uuid → String → String → String → Option Uuid → Answer (Unit {0})
  pub reject_event_refund_request :
      Uuid → Uuid → Uuid → Option String → Answer CompletedEventPurchase
  pub request_event_refund : Uuid → Uuid → Uuid → Option String → Value → Answer (Unit {0})
  pub requeue_stale_event_purchase_refund_claims : Answer ℕ
  pub load_event_notification_context : Uuid → Uuid → Answer EventContext
  pub enqueue : Notification → Answer (Unit {0})

-- Headers and body of a webhook are verified and parsed without a call.
pub record PaymentsProvider : Type 0 where
  pub provider : PaymentProvider
  pub verify_and_parse_webhook : String → String → Result String PaymentsWebhookEvent
  pub create_checkout_session : CreateCheckoutSessionInput → Answer CheckoutSession
  pub find_refund : FindRefundInput → Answer (Option RefundPaymentResult)
  pub refund_payment : RefundPaymentInput → Answer RefundPaymentResult

-- The payloads that the notifications module builds from an event's context.
pub record Payloads : Type 0 where
  pub refund_approved : EventContext → Result String Value
  pub refund_requested : EventContext → Result String Value
  pub event_welcome : EventContext → Uuid → Bool → Result String Notification
  pub refund_rejected : EventContext → Uuid → Result String Notification

pub record World : Type 0 where
  pub db : Database
  pub payloads : Payloads
  pub payments_provider : Option PaymentsProvider
  pub base_url : String
