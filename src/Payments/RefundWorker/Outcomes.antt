-- ===== src/Payments/RefundWorker/Outcomes.antt =====
-- When the outcome of a refund job is durable, and that a job that is processed has such an outcome.
use open_community_groups.Prelude.{
  sym, String, ◌≡◌, refl, ap, ◌∙◌, true, Option, none, some, List, ◌∷◌, ◌⊎◌, inl, inr, arith,
  is_some, Bool-cases, Option-cases, option_same_exact, string_eq,
}
use open_community_groups.Prelude.Result.{Result, ok, Result-cases}
use open_community_groups.Prelude.Exec.{continue_inv, ◌>>=◌}
use open_community_groups.Payments.Types.{
  ClaimedEventPurchaseRefund, RefundPaymentResult, RefundPaymentStatus, failed, pending, succeeded,
  RecordedProviderRefund, FindRefundInput, RefundPaymentInput,
}
use open_community_groups.Payments.Calls.{DbCall, ProviderCall, Call, PaymentsProvider, World}
use open_community_groups.Payments.Recorder.{
  is_pinned_failure, record_status, persist_provider_refund_result,
}
use open_community_groups.Payments.RefundWorker.{
  process_job, finalize_refund, reconcile_provider_refund, after_recording, found_or_created,
}

-- The provider's answer to the newest call, a search for a refund or the creation of one.
abbrev pub Answered : PaymentsProvider → RefundPaymentResult → List Call → Type 0
Answered p r (Call.provider (ProviderCall.find_refund i) ∷ s) = p.find_refund i s ≡ ok (some r)
Answered p r (Call.provider (ProviderCall.refund_payment i) ∷ s) = p.refund_payment i s ≡ ok r
Answered p r _ = ⊥

-- The provider answered with this refund, in this state.
abbrev pub Reported : PaymentsProvider → String → RefundPaymentStatus → List Call → Type 0
Reported p id status = Answered p (record { provider_refund_id = id; status = status })

-- The provider reported a success, and the database accepted it for the job.
abbrev pub JustSucceeded :
    World → PaymentsProvider → ClaimedEventPurchaseRefund → List Call → Type 0
JustSucceeded w p job (Call.db (DbCall.record_event_purchase_refund_succeeded id key r claim) ∷ s) =
    (id ≡ job.refund.event_purchase_refund_id)
    × (key ≡ job.refund.idempotency_key)
    × (claim ≡ job.refund.claim_id)
    × (w.db.record_event_purchase_refund_succeeded id key r claim s ≡ ok tt)
    × Reported p r RefundPaymentStatus.succeeded s
JustSucceeded w p job _ = ⊥

-- The provider's success is known from before the claim, or was recorded just now.
abbrev pub Succeeded : World → PaymentsProvider → ClaimedEventPurchaseRefund → List Call → Type 0
Succeeded w p job s = (is_some job.refund.provider_refunded_at ≡ true) ⊎ JustSucceeded w p job s

-- The newest call made the job's outcome durable and the database accepted it: the refund is
-- finalized, and the provider reported its success, now or before the claim; or it is recorded as
-- pending or failed, as the provider reported directly before. If the newest call is one of the
-- provider, then it reported the failure of the very provider refund whose terminal failure was
-- durable already.
abbrev pub Durable : World → PaymentsProvider → ClaimedEventPurchaseRefund → List Call → Type 0
Durable w p job
      (Call.db (DbCall.finalize_event_purchase_refund id claim v)
        ∷ (Call.db (DbCall.load_event_notification_context c e) ∷ s)) =
    (id ≡ job.refund.event_purchase_refund_id)
    × (some claim ≡ job.refund.claim_id)
    × (w.db.finalize_event_purchase_refund id claim v
          (Call.db (DbCall.load_event_notification_context c e) ∷ s)
        ≡ ok tt)
    × Succeeded w p job s
Durable w p job (Call.db (DbCall.record_event_purchase_refund_pending id key r claim) ∷ s) =
    (id ≡ job.refund.event_purchase_refund_id)
    × (key ≡ job.refund.idempotency_key)
    × (claim ≡ job.refund.claim_id)
    × (w.db.record_event_purchase_refund_pending id key r claim s ≡ ok tt)
    × Reported p r RefundPaymentStatus.pending s
Durable w p job
      (Call.db (DbCall.record_event_purchase_refund_terminal_failed id key r t claim) ∷ s) =
    (id ≡ job.refund.event_purchase_refund_id)
    × (key ≡ job.refund.idempotency_key)
    × (claim ≡ job.refund.claim_id)
    × (w.db.record_event_purchase_refund_terminal_failed id key r t claim s ≡ ok tt)
    × Reported p r RefundPaymentStatus.failed s
Durable w p job (Call.provider c ∷ s) =
    (job.refund.terminal_failure ≡ true)
    × (r : RefundPaymentResult) × Answered p r (Call.provider c ∷ s)
    × (r.status ≡ RefundPaymentStatus.failed)
    × (job.refund.provider_refund_id ≡ some r.provider_refund_id)
Durable w p job _ = ⊥

module _ (w : World) (p : PaymentsProvider) (job : ClaimedEventPurchaseRefund) where
  finalize_refund-Durable :
      (s : List Call)
      → Succeeded w p job s
      → (finalize_refund w job s).0 ≡ ok tt
      → Durable w p job (finalize_refund w job s).1
  unfolding finalize_refund
  finalize_refund-Durable s known h = ground arith

  -- What the recording of the provider's answer leaves behind.
  abbrev Outcome : RecordedProviderRefund → List Call → Type 0
  Outcome RecordedProviderRefund.failed s = Durable w p job s
  Outcome RecordedProviderRefund.pending s = Durable w p job s
  Outcome RecordedProviderRefund.succeeded s = JustSucceeded w p job s

  pinned-Durable :
      (id : String) (c : ProviderCall) (s : List Call)
      → Reported p id RefundPaymentStatus.failed (Call.provider c ∷ s)
      → is_pinned_failure job.refund id ≡ true
      → Durable w p job (Call.provider c ∷ s)
  unfolding is_pinned_failure
  pinned-Durable id c s answered pinned = (
    ground (arith, pinned),
    record { provider_refund_id = id; status = RefundPaymentStatus.failed },
    answered,
    refl,
    option_same_exact job.refund.provider_refund_id (some id) (ground (arith, pinned)),
  )

  record_status-Outcome :
      (id : String) (status : RefundPaymentStatus) (c : ProviderCall) (s : List Call)
      (recorded : RecordedProviderRefund)
      → Reported p id status (Call.provider c ∷ s)
      → (record_status w job.refund id status (Call.provider c ∷ s)).0 ≡ ok recorded
      → Outcome recorded (record_status w job.refund id status (Call.provider c ∷ s)).1
  unfolding record_status
  record_status-Outcome id failed c s recorded answered h =
      elim (Bool-cases (is_pinned_failure job.refund id)) [
        | inl pinned ↦ ground (arith, pinned, pinned-Durable id c s answered pinned)
        | inr other ↦ ground (arith, other, answered)
      ]
  record_status-Outcome id pending c s recorded answered h = ground (arith, answered)
  record_status-Outcome id succeeded c s recorded answered h = ground (arith, answered)

  after_recording-Durable :
      (recorded : RecordedProviderRefund) (s : List Call)
      → Outcome recorded s
      → (after_recording w job recorded s).0 ≡ ok tt
      → Durable w p job (after_recording w job recorded s).1
  unfolding after_recording
  after_recording-Durable RecordedProviderRefund.failed s o h = o
  after_recording-Durable RecordedProviderRefund.pending s o h = o
  after_recording-Durable RecordedProviderRefund.succeeded s o h =
      finalize_refund-Durable s (inr o) h

  -- From the provider's answer on.
  provider_answer-Durable :
      (r : RefundPaymentResult) (c : ProviderCall) (s : List Call)
      → Answered p r (Call.provider c ∷ s)
      → let m = persist_provider_refund_result w job.refund r >>= after_recording w job in
        (m (Call.provider c ∷ s)).0 ≡ ok tt → Durable w p job (m (Call.provider c ∷ s)).1
  unfolding persist_provider_refund_result
  provider_answer-Durable r c s answered h =
      let run = record_status w job.refund r.provider_refund_id r.status (Call.provider c ∷ s) in
      let (recorded, is_ok, rest) = continue_inv run (after_recording w job) tt h in
      let outcome =
        record_status-Outcome r.provider_refund_id r.status c s recorded answered is_ok in
      rw rest (
        after_recording-Durable recorded run.1 outcome
          (sym (ap (λ (x : Result String (Unit {0}) × List Call). x.0) rest) ∙ h))

  -- What the provider is asked to find, and to create.
  abbrev to_find : String → Option String → FindRefundInput
  to_find reference pinned = record {
    amount_minor = job.refund.amount_minor;
    provider_payment_reference = reference;
    purchase_id = job.refund.event_purchase_id;
    provider_refund_id = pinned;
  }

  abbrev to_create : String → RefundPaymentInput
  to_create reference = record {
    amount_minor = job.refund.amount_minor;
    idempotency_key = job.refund.idempotency_key;
    provider_payment_reference = reference;
    purchase_id = job.refund.event_purchase_id;
  }

  reconcile-Durable :
      (s : List Call)
      → (reconcile_provider_refund w p job s).0 ≡ ok tt
      → Durable w p job (reconcile_provider_refund w p job s).1
  unfolding reconcile_provider_refund found_or_created
  reconcile-Durable s h = elim (Option-cases job.refund.provider_payment_reference) [
    | inl e ↦ absurd (ground (arith, e, h))
    | inr (reference, e) ↦
        elim (Result-cases (p.find_refund (to_find reference job.refund.provider_refund_id) s)) [
          | inr (x, f) ↦ absurd (ground (arith, e, f, h))
          | inl (some r, f) ↦
              simp (e, f)
                (provider_answer-Durable r
                  (ProviderCall.find_refund (to_find reference job.refund.provider_refund_id)) s f
                  (simp (e, f) at h))
          | inl (none, f) ↦ elim (Option-cases job.refund.provider_refund_id) [
            | inr (id, g) ↦ absurd (ground (arith, e, f, g, h))
            | inl g ↦
                let s' = Call.provider (ProviderCall.find_refund (to_find reference none)) ∷ s in
                elim (Result-cases (p.refund_payment (to_create reference) s')) [
                  | inr (x, k) ↦ absurd (ground (arith, e, f, g, k, h))
                  | inl (r, k) ↦
                      simp (e, f)
                        (simp (g, k)
                          (provider_answer-Durable r
                            (ProviderCall.refund_payment (to_create reference)) s' k
                            (simp (g, k) at (simp (e, f) at h))))
                ]
          ]
        ]
  ]

  pub process_job-Durable :
      (s : List Call)
      → (process_job w p job s).0 ≡ ok tt
      → Durable w p job (process_job w p job s).1
  unfolding process_job
  process_job-Durable s h = elim (Bool-cases (is_some job.refund.provider_refunded_at)) [
    | inl e ↦ rw e (finalize_refund-Durable s (inl e) (rw e at h))
    | inr e ↦ rw e (reconcile-Durable s (rw e at h))
  ]
