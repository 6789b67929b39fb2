-- ===== src/Payments/Tests.antt =====
-- Runs of the payments services against a concrete database and provider.
use open_community_groups.Prelude.{
  ◌+◌, ◌≤◌, ◌≡◌, ◌≢◌, refl, ◌⊎◌, Bool, true, false, none, some, [], ◌∷◌, arith, count, drop, length,
  ap,
}
use open_community_groups.Prelude.Result.{ok, err}
use open_community_groups.Payments.Types.{
  stripe, eq_ignore_ascii_case, EventPurchaseSummary, EventPurchaseStatus, EventPurchaseRefund,
  EventPurchaseRefundStatus, EventPurchaseRefundKind, ClaimedEventPurchaseRefund,
  RefundPaymentStatus, RefundUpdate, PreparedEventCheckout, ReconcileEventPurchaseResult,
  PaymentsWebhookEvent, noop, refund_updated, CompleteRefundRecoveryInput,
  EventPurchaseRefundRecoveryContext,
}
use open_community_groups.Payments.Calls.{Database, PaymentsProvider, World}
use open_community_groups.Payments.RefundWorker.{process_claimed, process_job}
use open_community_groups.Payments.RefundWorker.Outcomes.{Durable}
use open_community_groups.Payments.RefundWorker.Claims.{
  Released, process_claimed-Durable, process_claimed-Released,
}
use open_community_groups.Payments.RefundWorker.Money.{
  IsJustified, interrupted-IsJustified, is_refund_payment,
}
use open_community_groups.Payments.RefundLoop.{Poll, run_refunds}
use open_community_groups.Payments.RefundLoop.Runs.{run_refunds-le}
use open_community_groups.Payments.Webhook.{handle_refund_updated}
use open_community_groups.Payments.Webhook.Guards.{
  is_record, is_record_succeeded, summary_call, loaded_trace, Matches, Written, Confirmed,
  handle_refund_updated-Matches, handle_refund_updated-Confirmed,
}
use open_community_groups.Payments.Manager.{
  get_or_create_checkout_redirect_url, complete_free_checkout, complete_refund_recovery,
  handle_webhook,
}
use open_community_groups.Payments.Manager.Checkout.{IsCanonical, get_or_create-IsCanonical}
use open_community_groups.Payments.Manager.Effects.{
  is_enqueue, IsRecovered, complete_free_checkout-result, complete_refund_recovery-IsRecovered,
  handle_webhook-verified,
}

abbrev purchase : EventPurchaseSummary
purchase = record {
  amount_minor = 2500;
  currency_code = b'U' ∷ b'S' ∷ b'D' ∷ [];
  discount_amount_minor = 0;
  event_purchase_id = 1;
  event_ticket_type_id = 2;
  status = EventPurchaseStatus.refund_pending;
  ticket_title = "General";
  completed_at = some 10;
  discount_code = none;
  hold_expires_at = none;
  provider_checkout_url = none;
  provider_payment_reference = some "pi_1";
  provider_session_id = some "cs_1";
  refunded_at = none;
}

abbrev refund : EventPurchaseRefund
refund = record {
  amount_minor = 2500;
  currency_code = b'U' ∷ b'S' ∷ b'D' ∷ [];
  event_purchase_id = 1;
  event_purchase_refund_id = 3;
  idempotency_key = "key";
  kind = EventPurchaseRefundKind.refund_request_approval;
  payment_provider = stripe;
  status = EventPurchaseRefundStatus.provider_pending;
  terminal_failure = false;
  attempt_count = 1;
  claim_id = some 4;
  failure_message = none;
  finalized_at = none;
  provider_payment_reference = some "pi_1";
  provider_refund_id = none;
  provider_refunded_at = none;
}

abbrev job : ClaimedEventPurchaseRefund
job = record { community_id = 5; event_id = 6; refund = refund }

abbrev context : EventPurchaseRefundRecoveryContext
context = record {
  community_id = 5;
  event_id = 6;
  event_purchase_refund_id = 3;
  notification_required = true;
}

abbrev database : Database
database = record {
  attach_checkout_session_to_event_purchase = λ a b c s. ok tt;
  claim_event_purchase_refund = λ a s. ok (some job);
  complete_event_purchase_refund_recovery = λ a b c d e f s. ok tt;
  complete_free_event_purchase = λ a s. ok tt;
  expire_event_purchase_for_checkout_session = λ a b s. ok tt;
  finalize_event_purchase_refund = λ a b c s. ok tt;
  get_event_purchase_refund = λ a s. ok refund;
  get_event_purchase_refund_recovery_context = λ a b s. ok context;
  get_event_purchase_summary = λ a s. ok (record purchase { provider_checkout_url = some "url" });
  queue_event_refund_request_approval = λ a b c d s. ok tt;
  reconcile_event_purchase_for_checkout_session = λ a b c s. ok ReconcileEventPurchaseResult.noop;
  record_event_purchase_refund_pending = λ a b c d s. ok tt;
  record_event_purchase_refund_retryable_failure = λ a b c s. ok tt;
  record_event_purchase_refund_succeeded = λ a b c d s. ok tt;
  record_event_purchase_refund_terminal_failed = λ a b c d e s. ok tt;
  reject_event_refund_request =
      λ a b c d s. ok (record { community_id = 5; event_id = 6; user_id = 7 });
  request_event_refund = λ a b c d e s. ok tt;
  requeue_stale_event_purchase_refund_claims = λ s. ok 0;
  load_event_notification_context = λ a b s. ok "event";
  enqueue = λ n s. err "queue is down";
}

-- What the provider reports of the refund "re_1".
abbrev update : RefundUpdate
update = record {
  amount_minor = 2500;
  currency_code = b'u' ∷ b's' ∷ b'd' ∷ [];
  provider_payment_reference = "pi_1";
  provider_refund_id = "re_1";
  purchase_id = 1;
  status = RefundPaymentStatus.succeeded;
}

-- A provider that has no refund but makes one, and that has the one that it is asked for by name.
abbrev answering : PaymentsProvider
answering = record {
  provider = stripe;
  verify_and_parse_webhook = λ headers body. ok (refund_updated update);
  create_checkout_session =
      λ i s. ok (record { provider_session_id = "cs_2"; redirect_url = "url" });
  find_refund = λ i s. ok (elim i.provider_refund_id [
    | none ↦ none
    | some id ↦ some (record { provider_refund_id = id; status = RefundPaymentStatus.succeeded })
  ]);
  refund_payment =
      λ i s. ok (record { provider_refund_id = "re_1"; status = RefundPaymentStatus.succeeded });
}

abbrev failing : PaymentsProvider
failing = record answering { find_refund = λ i s. err "timeout" }

abbrev world : World
world = record {
  db = database;
  payloads = record {
    refund_approved = λ c. ok "approved";
    refund_requested = λ c. ok "requested";
    event_welcome = λ c u link. ok "welcome";
    refund_rejected = λ c u. ok "rejected";
  };
  payments_provider = some answering;
  base_url = "https://ocg";
}

processed : (process_claimed world answering job []).0 ≡ ok true
unfolding process_claimed
processed = refl

process_claimed-Durable_example :
    ◌≡◌ {A = Bool} true true
    × Durable world answering job (process_claimed world answering job []).1
process_claimed-Durable_example = process_claimed-Durable world answering job [] true processed

timed_out : (process_claimed world failing job []).0 ≡ err "timeout"
unfolding process_claimed
timed_out = refl

process_claimed-Released_example :
    Released job "timeout" (process_claimed world failing job []).1
    × ((process_job world failing job []).0 ≡ err "timeout")
process_claimed-Released_example =
    process_claimed-Released world failing job [] 4 "timeout" refl timed_out

interrupted-IsJustified_example :
    IsJustified world answering job (drop 2 (process_claimed world answering job []).1)
interrupted-IsJustified_example = interrupted-IsJustified world answering job 2

abbrev going : Poll
going = record { at_start = false; during = none; in_pause = false; at_end = false }

abbrev cut : Poll
cut = record { at_start = false; during = some 1; in_pause = false; at_end = false }

run_refunds-le_example :
    count is_refund_payment (run_refunds world (going ∷ (cut ∷ [])) [])
    ≤ count is_refund_payment [] + length (going ∷ (cut ∷ []))
run_refunds-le_example = run_refunds-le world (going ∷ (cut ∷ [])) []

written_once : count is_record (handle_refund_updated world answering update []).1 ≡ 1
unfolding handle_refund_updated eq_ignore_ascii_case
written_once = refl

written : count is_record (handle_refund_updated world answering update []).1 ≢ count is_record []
written e = absurd (omega (arith, e, written_once))

-- In the world of these tests the purchase and the refund that are loaded are those above.
handle_refund_updated-Matches_example :
    (p : EventPurchaseSummary) × (r : EventPurchaseRefund) × (world.db.get_event_purchase_summary
        update.purchase_id []
      ≡ ok p)
    × (world.db.get_event_purchase_refund p.event_purchase_id (summary_call update ∷ []) ≡ ok r)
    × Matches p r answering update
    × Written world answering update r (handle_refund_updated world answering update []).1
handle_refund_updated-Matches_example =
    handle_refund_updated-Matches world answering update [] written

success_written_once :
    count is_record_succeeded (handle_refund_updated world answering update []).1 ≡ 1
unfolding handle_refund_updated eq_ignore_ascii_case
success_written_once = refl

written_success :
    count is_record_succeeded (handle_refund_updated world answering update []).1
    ≢ count is_record_succeeded []
written_success e = absurd (omega (arith, e, success_written_once))

handle_refund_updated-Confirmed_example :
    (p : EventPurchaseSummary) × (r : EventPurchaseRefund) × (world.db.get_event_purchase_summary
        update.purchase_id []
      ≡ ok p)
    × (world.db.get_event_purchase_refund p.event_purchase_id (summary_call update ∷ []) ≡ ok r)
    × (update.status ≡ RefundPaymentStatus.succeeded)
    × ((r.provider_refund_id ≢ none)
        ⊎ Confirmed world answering update r (loaded_trace world answering update p []))
handle_refund_updated-Confirmed_example =
    handle_refund_updated-Confirmed world answering update [] written_success

abbrev checkout : PreparedEventCheckout
checkout = record {
  community_name = "cncf";
  event_id = 6;
  event_slug = "event";
  group_slug = "group";
  purchase = purchase;
  recipient = record { provider = stripe; recipient_id = "acct" };
  group_slug_pretty = none;
}

redirected : (get_or_create_checkout_redirect_url world checkout 7 []).0 ≡ ok "url"
unfolding get_or_create_checkout_redirect_url
redirected = refl

get_or_create-IsCanonical_example :
    ((checkout.purchase.provider_checkout_url ≡ some "url")
      × ((get_or_create_checkout_redirect_url world checkout 7 []).1 ≡ []))
    ⊎ ((checkout.purchase.provider_checkout_url ≡ none)
        × IsCanonical world checkout 7 "url"
            (get_or_create_checkout_redirect_url world checkout 7 []).1)
get_or_create-IsCanonical_example = get_or_create-IsCanonical world checkout 7 [] "url" redirected

complete_free_checkout-result_example :
    ((complete_free_checkout world 5 6 1 7 []).0 ≡ ok tt)
    × ((count is_enqueue (complete_free_checkout world 5 6 1 7 []).1 ≡ count is_enqueue [])
        ⊎ (world.db.complete_free_event_purchase 1 [] ≡ ok tt))
complete_free_checkout-result_example = complete_free_checkout-result world 5 6 1 7 []

abbrev recovery : CompleteRefundRecoveryInput
recovery = record {
  actor_user_id = 8;
  event_purchase_id = 1;
  group_id = 9;
  recovery_note = "checked";
  recovery_reference = "bank";
}

recovered : (complete_refund_recovery world recovery []).0 ≡ ok tt
unfolding complete_refund_recovery
recovered = refl

complete_refund_recovery-IsRecovered_example :
    (c : EventPurchaseRefundRecoveryContext) × (world.db.get_event_purchase_refund_recovery_context
        9 1 []
      ≡ ok c)
    × IsRecovered world recovery c (complete_refund_recovery world recovery []).1
complete_refund_recovery-IsRecovered_example =
    complete_refund_recovery-IsRecovered world recovery [] recovered

four_calls : length (handle_webhook world "signature" "body" []).1 ≡ 4
unfolding handle_webhook eq_ignore_ascii_case
four_calls = refl

called : (handle_webhook world "signature" "body" []).1 ≢ []
called e = absurd (omega (arith, ap length e, four_calls))

handle_webhook-verified_example :
    (p : PaymentsProvider) × (event : PaymentsWebhookEvent) × (world.payments_provider ≡ some p)
    × (p.verify_and_parse_webhook "signature" "body" ≡ ok event)
    × (event ≢ noop)
handle_webhook-verified_example = handle_webhook-verified world "signature" "body" [] called
