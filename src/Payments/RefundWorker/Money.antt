-- ===== src/Payments/RefundWorker/Money.antt =====
-- When money moves: a provider refund is created, and a refund is finalized.
use open_community_groups.Prelude.{
  inl, inr, ℕ, ◌+◌, ◌≤◌, ◌≡◌, String, Bool, true, false, Option, none, some, List, [], ◌∷◌, arith,
  if◌then◌else◌, is_some, count, drop, zero, suc,
}
use open_community_groups.Prelude.Result.{ok, Result-cases}
use open_community_groups.Payments.Types.{ClaimedEventPurchaseRefund, RefundPaymentInput}
use open_community_groups.Payments.Calls.{DbCall, ProviderCall, Call, PaymentsProvider, World}
use open_community_groups.Payments.RefundWorker.{
  process_job, process_claimed, release_retryable_failure, finalize_refund,
  reconcile_provider_refund, process_option, process_with, process_next_refund,
}
use open_community_groups.Payments.RefundWorker.Claims.{process_claimed_cases}

module _ (w : World) (p : PaymentsProvider) (job : ClaimedEventPurchaseRefund) where
  -- A refund is created for the job's own amount, purchase, payment and idempotency key, directly
  -- after the provider was asked for such a refund and answered that it has none; and no provider
  -- refund is pinned to the job.
  abbrev pub IsFresh : RefundPaymentInput → List Call → Type 0
  IsFresh i (Call.provider (ProviderCall.find_refund f) ∷ s) =
      (p.find_refund f s ≡ ok none)
      × (f.purchase_id ≡ job.refund.event_purchase_id)
      × (f.provider_payment_reference ≡ i.provider_payment_reference)
      × (some i.provider_payment_reference ≡ job.refund.provider_payment_reference)
      × (i.amount_minor ≡ job.refund.amount_minor)
      × (i.purchase_id ≡ job.refund.event_purchase_id)
      × (i.idempotency_key ≡ job.refund.idempotency_key)
      × (job.refund.provider_refund_id ≡ none)
  IsFresh i _ = ⊥

  -- Before the context of its notification was loaded, the provider's success was recorded for the
  -- job and the database accepted it.
  abbrev pub SuccessRecorded : List Call → Type 0
  SuccessRecorded
        (Call.db (DbCall.load_event_notification_context c e)
          ∷ (Call.db (DbCall.record_event_purchase_refund_succeeded id key r claim) ∷ s)) =
      (id ≡ job.refund.event_purchase_refund_id)
      × (key ≡ job.refund.idempotency_key)
      × (w.db.record_event_purchase_refund_succeeded id key r claim s ≡ ok tt)
  SuccessRecorded _ = ⊥

  -- Every call of the trace that moves money is justified by what was called before it: a refund is
  -- fresh, and what is finalized has its success recorded, now or before the claim.
  abbrev pub IsJustified : List Call → Type 0
  IsJustified [] = Unit
  IsJustified (Call.provider (ProviderCall.refund_payment i) ∷ s) = IsFresh i s × IsJustified s
  IsJustified (Call.db (DbCall.finalize_event_purchase_refund id c v) ∷ s) =
      (if is_some job.refund.provider_refunded_at then Unit {0} else SuccessRecorded s)
      × IsJustified s
  IsJustified (_ ∷ s) = IsJustified s

  process_job-IsJustified : IsJustified (process_job w p job []).1
  unfolding process_job finalize_refund reconcile_provider_refund
  process_job-IsJustified = ground arith

  release-IsJustified :
      (e : String) (s : List Call)
      → IsJustified s
      → IsJustified (release_retryable_failure w job e s)
  unfolding release_retryable_failure
  release-IsJustified e s h = ground arith

  claimed-IsJustified : IsJustified (process_claimed w p job []).1
  claimed-IsJustified =
      process_claimed_cases w p job (λ x. IsJustified x.1) [] (λ _. process_job-IsJustified)
        (λ e _. release-IsJustified e (process_job w p job []).1 process_job-IsJustified)

  tail-IsJustified : (c : Call) (s : List Call) → IsJustified (c ∷ s) → IsJustified s
  tail-IsJustified (Call.provider (ProviderCall.refund_payment i)) s h = h.1
  tail-IsJustified (Call.provider (ProviderCall.find_refund f)) s h = h
  tail-IsJustified (Call.provider (ProviderCall.create_checkout_session i)) s h = h
  tail-IsJustified (Call.db d) s h = ground arith

  drop-IsJustified : (n : ℕ) (s : List Call) → IsJustified s → IsJustified (drop n s)
  drop-IsJustified zero s h = h
  drop-IsJustified (suc n) [] h = h
  drop-IsJustified (suc n) (c ∷ s) h = drop-IsJustified n s (tail-IsJustified c s h)

  -- At whatever call the processing of a claimed job is interrupted, every call made that moves
  -- money is justified by what was called before it.
  pub interrupted-IsJustified : (n : ℕ) → IsJustified (drop n (process_claimed w p job []).1)
  interrupted-IsJustified n = drop-IsJustified n (process_claimed w p job []).1 claimed-IsJustified

abbrev pub is_refund_payment : Call → Bool
is_refund_payment (Call.provider (ProviderCall.refund_payment i)) = true
is_refund_payment _ = false

module _ (w : World) (p : PaymentsProvider) (job : ClaimedEventPurchaseRefund) where
  process_job_once :
      (s : List Call)
      → count is_refund_payment (process_job w p job s).1 ≤ count is_refund_payment s + 1
  unfolding process_job finalize_refund reconcile_provider_refund
  process_job_once s = ground arith

  release_none :
      (e : String) (s : List Call)
      → count is_refund_payment (release_retryable_failure w job e s) ≡ count is_refund_payment s
  unfolding release_retryable_failure
  release_none e s = ground arith

  -- The processing of a claimed job asks the provider for a new refund at most once.
  pub process_claimed_once :
      (s : List Call)
      → count is_refund_payment (process_claimed w p job s).1 ≤ count is_refund_payment s + 1
  process_claimed_once s =
      process_claimed_cases w p job
        (λ x. count is_refund_payment x.1 ≤ count is_refund_payment s + 1) s
        (λ _. process_job_once s)
        (λ e _. omega (arith, process_job_once s, release_none e (process_job w p job s).1))

module _ (w : World) where
  process_option_once :
      (p : PaymentsProvider) (o : Option ClaimedEventPurchaseRefund) (s : List Call)
      → count is_refund_payment (process_option w p o s).1 ≤ count is_refund_payment s + 1
  unfolding process_option
  process_option_once p none s = omega arith
  process_option_once p (some job) s = process_claimed_once w p job s

  process_with_once :
      (o : Option PaymentsProvider) (s : List Call)
      → count is_refund_payment (process_with w o s).1 ≤ count is_refund_payment s + 1
  unfolding process_with
  process_with_once none s = omega arith
  process_with_once (some p) s =
      let s1 = Call.db (DbCall.claim_event_purchase_refund p.provider) ∷ s in
      elim (Result-cases (w.db.claim_event_purchase_refund p.provider s)) [
        | inl (o, e) ↦ rw e (process_option_once p o s1)
        | inr (t, e) ↦ rw e (omega arith)
      ]

  -- A round of the refund worker asks the provider for a new refund at most once.
  pub process_next_refund_once :
      (s : List Call)
      → count is_refund_payment (process_next_refund w s).1 ≤ count is_refund_payment s + 1
  unfolding process_next_refund
  process_next_refund_once s = process_with_once w.payments_provider s
