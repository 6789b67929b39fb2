-- ===== src/Payments/Db.antt =====
-- The database operations as actions: each records its call and gives the database's answer.
use open_community_groups.Prelude.{ℕ, String, Option}
use open_community_groups.Prelude.Exec.{Exec, call}
use open_community_groups.Payments.Types.{
  CheckoutSession, ClaimedEventPurchaseRefund, EventPurchaseRefund,
  EventPurchaseRefundRecoveryContext, EventPurchaseSummary, PaymentProvider,
  ReconcileEventPurchaseResult, CompletedEventPurchase, Uuid, Value,
}
use open_community_groups.Payments.Calls.{DbCall, Call, World, EventContext, Notification}

module _ (w : World) where
  abbrev pub attach_checkout_session_to_event_purchase :
      Uuid → PaymentProvider → CheckoutSession → Exec Call String (Unit {0})
  attach_checkout_session_to_event_purchase a b c =
      call (Call.db (DbCall.attach_checkout_session_to_event_purchase a b c))
        (w.db.attach_checkout_session_to_event_purchase a b c)

  abbrev pub claim_event_purchase_refund :
      PaymentProvider → Exec Call String (Option ClaimedEventPurchaseRefund)
  claim_event_purchase_refund a =
      call (Call.db (DbCall.claim_event_purchase_refund a)) (w.db.claim_event_purchase_refund a)

  abbrev pub complete_event_purchase_refund_recovery :
      Uuid → Uuid → Uuid → String → String → Option Value → Exec Call String (Unit {0})
  complete_event_purchase_refund_recovery a b c d e f =
      call (Call.db (DbCall.complete_event_purchase_refund_recovery a b c d e f))
        (w.db.complete_event_purchase_refund_recovery a b c d e f)

  abbrev pub complete_free_event_purchase : Uuid → Exec Call String (Unit {0})
  complete_free_event_purchase a =
      call (Call.db (DbCall.complete_free_event_purchase a)) (w.db.complete_free_event_purchase a)

  abbrev pub expire_event_purchase_for_checkout_session :
      PaymentProvider → String → Exec Call String (Unit {0})
  expire_event_purchase_for_checkout_session a b =
      call (Call.db (DbCall.expire_event_purchase_for_checkout_session a b))
        (w.db.expire_event_purchase_for_checkout_session a b)

  abbrev pub finalize_event_purchase_refund : Uuid → Uuid → Value → Exec Call String (Unit {0})
  finalize_event_purchase_refund a b c =
      call (Call.db (DbCall.finalize_event_purchase_refund a b c))
        (w.db.finalize_event_purchase_refund a b c)

  abbrev pub get_event_purchase_refund : Uuid → Exec Call String EventPurchaseRefund
  get_event_purchase_refund a =
      call (Call.db (DbCall.get_event_purchase_refund a)) (w.db.get_event_purchase_refund a)

  abbrev pub get_event_purchase_refund_recovery_context :
      Uuid → Uuid → Exec Call String EventPurchaseRefundRecoveryContext
  get_event_purchase_refund_recovery_context a b =
      call (Call.db (DbCall.get_event_purchase_refund_recovery_context a b))
        (w.db.get_event_purchase_refund_recovery_context a b)

  abbrev pub get_event_purchase_summary : Uuid → Exec Call String EventPurchaseSummary
  get_event_purchase_summary a =
      call (Call.db (DbCall.get_event_purchase_summary a)) (w.db.get_event_purchase_summary a)

  abbrev pub queue_event_refund_request_approval :
      Uuid → Uuid → Uuid → Option String → Exec Call String (Unit {0})
  queue_event_refund_request_approval a b c d =
      call (Call.db (DbCall.queue_event_refund_request_approval a b c d))
        (w.db.queue_event_refund_request_approval a b c d)

  abbrev pub reconcile_event_purchase_for_checkout_session :
      PaymentProvider → String → Option String → Exec Call String ReconcileEventPurchaseResult
  reconcile_event_purchase_for_checkout_session a b c =
      call (Call.db (DbCall.reconcile_event_purchase_for_checkout_session a b c))
        (w.db.reconcile_event_purchase_for_checkout_session a b c)

  abbrev pub record_event_purchase_refund_pending :
      Uuid → String → String → Option Uuid → Exec Call String (Unit {0})
  record_event_purchase_refund_pending a b c d =
      call (Call.db (DbCall.record_event_purchase_refund_pending a b c d))
        (w.db.record_event_purchase_refund_pending a b c d)

  abbrev pub record_event_purchase_refund_retryable_failure :
      Uuid → Uuid → String → Exec Call String (Unit {0})
  record_event_purchase_refund_retryable_failure a b c =
      call (Call.db (DbCall.record_event_purchase_refund_retryable_failure a b c))
        (w.db.record_event_purchase_refund_retryable_failure a b c)

  abbrev pub record_event_purchase_refund_succeeded :
      Uuid → String → String → Option Uuid → Exec Call String (Unit {0})
  record_event_purchase_refund_succeeded a b c d =
      call (Call.db (DbCall.record_event_purchase_refund_succeeded a b c d))
        (w.db.record_event_purchase_refund_succeeded a b c d)

  abbrev pub record_event_purchase_refund_terminal_failed :
      Uuid → String → String → String → Option Uuid → Exec Call String (Unit {0})
  record_event_purchase_refund_terminal_failed a b c d e =
      call (Call.db (DbCall.record_event_purchase_refund_terminal_failed a b c d e))
        (w.db.record_event_purchase_refund_terminal_failed a b c d e)

  abbrev pub reject_event_refund_request :
      Uuid → Uuid → Uuid → Option String → Exec Call String CompletedEventPurchase
  reject_event_refund_request a b c d =
      call (Call.db (DbCall.reject_event_refund_request a b c d))
        (w.db.reject_event_refund_request a b c d)

  abbrev pub request_event_refund :
      Uuid → Uuid → Uuid → Option String → Value → Exec Call String (Unit {0})
  request_event_refund a b c d e =
      call (Call.db (DbCall.request_event_refund a b c d e)) (w.db.request_event_refund a b c d e)

  abbrev pub requeue_stale_event_purchase_refund_claims : Exec Call String ℕ
  requeue_stale_event_purchase_refund_claims =
      call (Call.db DbCall.requeue_stale_event_purchase_refund_claims)
        w.db.requeue_stale_event_purchase_refund_claims

  abbrev pub load_event_notification_context : Uuid → Uuid → Exec Call String EventContext
  load_event_notification_context a b =
      call (Call.db (DbCall.load_event_notification_context a b))
        (w.db.load_event_notification_context a b)

  abbrev pub enqueue : Notification → Exec Call String (Unit {0})
  enqueue a = call (Call.db (DbCall.enqueue a)) (w.db.enqueue a)
