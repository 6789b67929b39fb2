-- ===== src/Payments/Types.antt =====
-- The data types of types/payments.rs, db/payments.rs and services/payments/provider.rs. An `i64` is
-- its 64 bits as a number, a `Uuid` its 128 bits, a `DateTime<Utc>` its seconds, a JSON `Value` its
-- text, and an `anyhow::Error` the text that it displays. A currency code is a list of character
-- codes, since it is compared without regard to case.
use open_community_groups.Prelude.{ℕ, String, Bool, true, false, Option}
unfoldable pub use open_community_groups.Prelude.Text.{Text, eq_ignore_ascii_case}

abbrev pub Uuid : Type 0
Uuid = ℕ

abbrev pub Amount : Type 0
Amount = ℕ

abbrev pub DateTime : Type 0
DateTime = ℕ

abbrev pub Value : Type 0
Value = String

pub data PaymentProvider : Type 0 where
  stripe : PaymentProvider

abbrev pub same_provider : PaymentProvider → PaymentProvider → Bool
same_provider stripe stripe = true

pub data EventPurchaseStatus : Type 0 where
  completed expired pending refunded refund_pending refund_recovery_pending refund_requested :
      EventPurchaseStatus

pub data EventPurchaseRefundStatus : Type 0 where
  finalized processing provider_failed provider_pending provider_succeeded :
      EventPurchaseRefundStatus

pub data EventPurchaseRefundKind : Type 0 where
  automatic_unfulfillable_checkout event_cancellation refund_request_approval :
      EventPurchaseRefundKind

pub data RefundPaymentStatus : Type 0 where
  failed pending succeeded : RefundPaymentStatus

abbrev pub is_failed : RefundPaymentStatus → Bool
is_failed failed = true
is_failed pending = false
is_failed succeeded = false

pub record RefundPaymentResult : Type 0 where
  pub provider_refund_id : String
  pub status : RefundPaymentStatus

pub record EventPurchaseSummary : Type 0 where
  pub amount_minor : Amount
  pub currency_code : Text
  pub discount_amount_minor : Amount
  pub event_purchase_id : Uuid
  pub event_ticket_type_id : Uuid
  pub status : EventPurchaseStatus
  pub ticket_title : String
  pub completed_at : Option DateTime
  pub discount_code : Option String
  pub hold_expires_at : Option DateTime
  pub provider_checkout_url : Option String
  pub provider_payment_reference : Option String
  pub provider_session_id : Option String
  pub refunded_at : Option DateTime

pub record EventPurchaseRefund : Type 0 where
  pub amount_minor : Amount
  pub currency_code : Text
  pub event_purchase_id : Uuid
  pub event_purchase_refund_id : Uuid
  pub idempotency_key : String
  pub kind : EventPurchaseRefundKind
  pub payment_provider : PaymentProvider
  pub status : EventPurchaseRefundStatus
  pub terminal_failure : Bool
  pub attempt_count : ℕ
  pub claim_id : Option Uuid
  pub failure_message : Option String
  pub finalized_at : Option DateTime
  pub provider_payment_reference : Option String
  pub provider_refund_id : Option String
  pub provider_refunded_at : Option DateTime

pub record ClaimedEventPurchaseRefund : Type 0 where
  pub community_id : Uuid
  pub event_id : Uuid
  pub refund : EventPurchaseRefund

pub record CompletedEventPurchase : Type 0 where
  pub community_id : Uuid
  pub event_id : Uuid
  pub user_id : Uuid

pub data ReconcileEventPurchaseResult : Type 0 where
  completed : CompletedEventPurchase → ReconcileEventPurchaseResult
  noop refund_queued : ReconcileEventPurchaseResult

pub record EventPurchaseRefundRecoveryContext : Type 0 where
  pub community_id : Uuid
  pub event_id : Uuid
  pub event_purchase_refund_id : Uuid
  pub notification_required : Bool

pub record GroupPaymentRecipient : Type 0 where
  pub provider : PaymentProvider
  pub recipient_id : String

pub record PreparedEventCheckout : Type 0 where
  pub community_name : String
  pub event_id : Uuid
  pub event_slug : String
  pub group_slug : String
  pub purchase : EventPurchaseSummary
  pub recipient : GroupPaymentRecipient
  pub group_slug_pretty : Option String

pub record CheckoutSession : Type 0 where
  pub provider_session_id : String
  pub redirect_url : String

pub record CreateCheckoutSessionInput : Type 0 where
  pub amount_minor : Amount
  pub base_url : String
  pub community_name : String
  pub currency_code : Text
  pub event_id : Uuid
  pub event_slug : String
  pub group_slug : String
  pub purchase_id : Uuid
  pub recipient : GroupPaymentRecipient
  pub ticket_title : String
  pub user_id : Uuid
  pub discount_code : Option String
  pub group_slug_pretty : Option String

pub record FindRefundInput : Type 0 where
  pub amount_minor : Amount
  pub provider_payment_reference : String
  pub purchase_id : Uuid
  pub provider_refund_id : Option String

pub record RefundPaymentInput : Type 0 where
  pub amount_minor : Amount
  pub idempotency_key : String
  pub provider_payment_reference : String
  pub purchase_id : Uuid

pub record RefundUpdate : Type 0 where
  pub amount_minor : Amount
  pub currency_code : Text
  pub provider_payment_reference : String
  pub provider_refund_id : String
  pub purchase_id : Uuid
  pub status : RefundPaymentStatus

pub data PaymentsWebhookEvent : Type 0 where
  checkout_completed : String → Option String → PaymentsWebhookEvent
  checkout_expired : String → PaymentsWebhookEvent
  noop : PaymentsWebhookEvent
  refund_updated : RefundUpdate → PaymentsWebhookEvent

pub data RecordedProviderRefund : Type 0 where
  failed pending succeeded : RecordedProviderRefund

pub record ApproveRefundRequestInput : Type 0 where
  pub actor_user_id : Uuid
  pub event_purchase_id : Uuid
  pub group_id : Uuid
  pub review_note : Option String

pub record RejectRefundRequestInput : Type 0 where
  pub actor_user_id : Uuid
  pub event_purchase_id : Uuid
  pub group_id : Uuid
  pub review_note : Option String

pub record RequestRefundInput : Type 0 where
  pub community_id : Uuid
  pub event_id : Uuid
  pub user_id : Uuid
  pub requested_reason : Option String

pub record CompleteRefundRecoveryInput : Type 0 where
  pub actor_user_id : Uuid
  pub event_purchase_id : Uuid
  pub group_id : Uuid
  pub recovery_note : String
  pub recovery_reference : String

pub data HandleWebhookError : Type 0 where
  invalid_payload payments_not_configured : HandleWebhookError
  unexpected : String → HandleWebhookError
