-- ===== src/Payments/RefundWorker/Claims.antt =====
-- What becomes of a claimed refund job.
use mathlib.Core.Path.{subst}
use open_community_groups.Prelude.{sym, String, ◌≡◌, Bool, true, some, List, ◌∷◌, arith, string_eq}
use open_community_groups.Prelude.Result.{Result, ok, err}
use open_community_groups.Prelude.Exec.{handle_cases}
use open_community_groups.Payments.Types.{Uuid, ClaimedEventPurchaseRefund}
use open_community_groups.Payments.Calls.{DbCall, Call, PaymentsProvider, World}
use open_community_groups.Payments.RefundWorker.{
  process_job, process_claimed, release_retryable_failure,
}
use open_community_groups.Payments.RefundWorker.Outcomes.{Durable, process_job-Durable}

-- The newest call gives the claim on the job back, with the error's text.
abbrev pub Released : ClaimedEventPurchaseRefund → String → List Call → Type 0
Released job e (Call.db (DbCall.record_event_purchase_refund_retryable_failure id claim text) ∷ s) =
    (id ≡ job.refund.event_purchase_refund_id) × (some claim ≡ job.refund.claim_id) × (text ≡ e)
Released job e _ = ⊥

module _ (w : World) (p : PaymentsProvider) (job : ClaimedEventPurchaseRefund) where
  pub process_claimed_cases {κ} :
      (P : Result String Bool × List Call → Type κ) (s : List Call)
      → ((process_job w p job s).0 ≡ ok tt → P (ok true, (process_job w p job s).1))
      → ((e : String)
          → (process_job w p job s).0 ≡ err e
          → P (err e, release_retryable_failure w job e (process_job w p job s).1))
      → P (process_claimed w p job s)
  unfolding process_claimed
  process_claimed_cases P s on_ok on_err =
      handle_cases P (process_job w p job s) _ _ (λ a h. on_ok h) on_err

  -- A job is reported as processed only when its outcome is durable: a refund whose success the
  -- provider reported, now or before the claim, is finalized, and one that it reported as
  -- pending or failed is recorded as such, unless that very failure was recorded before the
  -- claim.
  pub process_claimed-Durable :
      (s : List Call) (b : Bool)
      → (process_claimed w p job s).0 ≡ ok b
      → (b ≡ true) × Durable w p job (process_claimed w p job s).1
  process_claimed-Durable s b =
      process_claimed_cases (λ x. x.0 ≡ ok b → (b ≡ true) × Durable w p job x.1) s
        (λ h e. (cc, process_job-Durable w p job s h)) (λ e _ h. absurd (cc))

  release-Released :
      (e : String) (s : List Call) (c : Uuid)
      → job.refund.claim_id ≡ some c
      → Released job e (release_retryable_failure w job e s)
  unfolding release_retryable_failure
  release-Released e s c h = ground arith

  -- When the processing of a job that carries its claim fails, with whatever error, the last call
  -- gives the claim back with that error's text, and the error is the one that is returned.
  pub process_claimed-Released :
      (s : List Call) (c : Uuid) (e : String)
      → job.refund.claim_id ≡ some c
      → (process_claimed w p job s).0 ≡ err e
      → Released job e (process_claimed w p job s).1 × ((process_job w p job s).0 ≡ err e)
  process_claimed-Released s c e has_claim =
      process_claimed_cases
        (λ x. x.0 ≡ err e → Released job e x.1 × ((process_job w p job s).0 ≡ err e)) s
        (λ h k. absurd (cc))
        (λ f h k.
          let same : f ≡ e = cc in
          (
            subst
                (λ g. Released job e (release_retryable_failure w job g (process_job w p job s).1))
                (sym same) (release-Released e (process_job w p job s).1 c has_claim),
            cc,
          ))
