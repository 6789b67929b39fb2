-- ===== src/Payments/RefundWorker.antt =====
-- services/payments/refund_worker.rs: the worker that carries out queued refunds, and the worker
-- that requeues abandoned claims.
pub mod Outcomes
pub mod Claims
pub mod Money
use open_community_groups.Prelude.{
  ℕ, String, Bool, true, false, ◌||◌, Option, none, some, List, [], ◌∷◌, if◌then◌else◌, is_some,
}
use open_community_groups.Prelude.Result.{Result, ok, err}
use open_community_groups.Prelude.Exec.{Exec, pure, fail, or_fail, ◌>>=◌, ◌>>◌, handle}
use open_community_groups.Payments.Types.{
  Uuid, ClaimedEventPurchaseRefund, RefundPaymentResult, RecordedProviderRefund,
}
use open_community_groups.Payments.Calls.{Call, PaymentsProvider, World}
use open_community_groups.Payments.Db
use open_community_groups.Payments.Provider
use open_community_groups.Payments.Composer.{build_refund_approval_template_data}
use open_community_groups.Payments.Recorder.{context, persist_provider_refund_result}

abbrev Action : Type 0 → Type 0
Action = Exec Call String

module _ (w : World) where
  pub finalize_refund : ClaimedEventPurchaseRefund → Action (Unit {0})
  unfolding build_refund_approval_template_data
  finalize_refund job = do
    claim_id ← or_fail job.refund.claim_id "event purchase refund claim id is missing"
    template_data ←
        context (build_refund_approval_template_data w job.community_id job.event_id)
          "failed to build refund approval notification"
    Db.finalize_event_purchase_refund w job.refund.event_purchase_refund_id claim_id template_data

  after_recording : ClaimedEventPurchaseRefund → RecordedProviderRefund → Action (Unit {0})
  unfolding finalize_refund
  after_recording job RecordedProviderRefund.failed = pure tt
  after_recording job RecordedProviderRefund.pending = pure tt
  after_recording job RecordedProviderRefund.succeeded = finalize_refund job

  -- The provider refund that was found, or a new one; a pinned refund that is gone is an error.
  found_or_created :
      PaymentsProvider
      → ClaimedEventPurchaseRefund
      → String
      → Option RefundPaymentResult
      → Option String
      → Action RefundPaymentResult
  found_or_created p job reference (some r) pinned = pure r
  found_or_created p job reference none (some id) = fail "provider refund not found"
  found_or_created p job reference none none = Provider.refund_payment p (record {
    amount_minor = job.refund.amount_minor;
    idempotency_key = job.refund.idempotency_key;
    provider_payment_reference = reference;
    purchase_id = job.refund.event_purchase_id;
  })

  pub reconcile_provider_refund : PaymentsProvider → ClaimedEventPurchaseRefund → Action (Unit {0})
  unfolding found_or_created after_recording persist_provider_refund_result
  reconcile_provider_refund p job = do
    reference ←
        or_fail job.refund.provider_payment_reference "provider payment reference is missing"
    found ← Provider.find_refund p (record {
      amount_minor = job.refund.amount_minor;
      provider_payment_reference = reference;
      purchase_id = job.refund.event_purchase_id;
      provider_refund_id = job.refund.provider_refund_id;
    })
    provider_refund ← found_or_created p job reference found job.refund.provider_refund_id
    recorded ← persist_provider_refund_result w job.refund provider_refund
    after_recording job recorded

  -- The error of the database, if any, is only logged.
  pub release_retryable_failure : ClaimedEventPurchaseRefund → String → List Call → List Call
  release_retryable_failure job e s = elim job.refund.claim_id [
    | none ↦ s
    | some claim_id ↦
        (Db.record_event_purchase_refund_retryable_failure w job.refund.event_purchase_refund_id
          claim_id e s).1
  ]

  pub process_job : PaymentsProvider → ClaimedEventPurchaseRefund → Action (Unit {0})
  unfolding finalize_refund reconcile_provider_refund
  process_job p job =
      if is_some job.refund.provider_refunded_at
      then finalize_refund job
      else reconcile_provider_refund p job

  -- A claimed job is processed, and on an error its claim is given back.
  unfoldable pub process_claimed : PaymentsProvider → ClaimedEventPurchaseRefund → Action Bool
  unfolding process_job release_retryable_failure
  process_claimed p job s =
      handle (process_job p job s) (λ _. pure true)
        (λ e s'. fail e (release_retryable_failure job e s'))

  process_option : PaymentsProvider → Option ClaimedEventPurchaseRefund → Action Bool
  process_option p none = pure false
  process_option p (some job) = process_claimed p job

  process_with : Option PaymentsProvider → Action Bool
  unfolding process_option
  process_with none = pure false
  process_with (some p) = do
    claimed ← Db.claim_event_purchase_refund w p.provider
    process_option p claimed

  unfoldable pub process_next_refund : Action Bool
  unfolding process_with process_claimed
  process_next_refund = process_with w.payments_provider
