-- ===== src/Payments/Recorder.antt =====
-- services/payments/refund_recorder.rs: a provider's refund result made durable.
use open_community_groups.Prelude.{String, Bool, ◌&&◌, some, if◌then◌else◌, option_same, string_eq}
use open_community_groups.Prelude.Exec.{Exec, pure, ◌>>◌, map_err}
use open_community_groups.Payments.Types.{
  EventPurchaseRefund, RefundPaymentResult, RefundPaymentStatus, failed, pending, succeeded,
  RecordedProviderRefund,
}
use open_community_groups.Payments.Calls.{Call, World}
use open_community_groups.Payments.Db

-- `context`: the error displays as the text that is given.
abbrev pub context : {A : Type 0} → Exec Call String A → String → Exec Call String A
context m text = map_err (λ e. text) m

-- The terminal failure of this very provider refund is recorded already.
unfoldable pub is_pinned_failure : EventPurchaseRefund → String → Bool
is_pinned_failure refund id =
    refund.terminal_failure && option_same refund.provider_refund_id (some id)

unfoldable pub record_status :
    World
    → EventPurchaseRefund
    → String
    → RefundPaymentStatus
    → Exec Call String RecordedProviderRefund
unfolding is_pinned_failure
record_status w refund id failed =
    if is_pinned_failure refund id then pure RecordedProviderRefund.failed else (do
      context
          (Db.record_event_purchase_refund_terminal_failed w refund.event_purchase_refund_id
            refund.idempotency_key id "provider refund failed" refund.claim_id)
          "failed to record terminal provider refund failure"
      pure RecordedProviderRefund.failed)
record_status w refund id pending = do
  context
      (Db.record_event_purchase_refund_pending w refund.event_purchase_refund_id
        refund.idempotency_key id refund.claim_id)
      "failed to record pending provider refund"
  pure RecordedProviderRefund.pending
record_status w refund id succeeded = do
  context
      (Db.record_event_purchase_refund_succeeded w refund.event_purchase_refund_id
        refund.idempotency_key id refund.claim_id)
      "failed to record successful provider refund"
  pure RecordedProviderRefund.succeeded

unfoldable pub persist_provider_refund_result :
    World → EventPurchaseRefund → RefundPaymentResult → Exec Call String RecordedProviderRefund
unfolding record_status
persist_provider_refund_result w refund result =
    record_status w refund result.provider_refund_id result.status
