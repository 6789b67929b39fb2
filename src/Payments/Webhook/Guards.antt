-- ===== src/Payments/Webhook/Guards.antt =====
-- Which refund events change the durable refund.
use text.Mathlib.TextEquality.{eq_iff}
use open_community_groups.Prelude.{
  ℕ, ◌≡◌, ◌≢◌, refl, ◌⊎◌, inl, inr, Bool, true, false, none, some, List, ◌∷◌, arith, count,
  Option-cases, Bool-cases, option_same_exact, ap, ◌∙◌, ◌==◌, string_eq,
}
use open_community_groups.Prelude.Result.{ok, Result-cases}
use open_community_groups.Prelude.Exec.{bind_ok, bind_err}
use open_community_groups.Payments.Types.{
  EventPurchaseSummary, EventPurchaseRefund, RefundPaymentStatus, RefundUpdate, FindRefundInput,
  RefundPaymentResult, is_failed, eq_ignore_ascii_case,
}
use open_community_groups.Payments.Calls.{DbCall, Call, PaymentsProvider, World}
use open_community_groups.Payments.Webhook.{
  handle_refund_updated, has_succeeded, load_validated_refund_for_event, update_refund,
}

-- The calls that write a refund's provider state.
abbrev pub is_record : Call → Bool
is_record (Call.db (DbCall.record_event_purchase_refund_pending a b c d)) = true
is_record (Call.db (DbCall.record_event_purchase_refund_succeeded a b c d)) = true
is_record (Call.db (DbCall.record_event_purchase_refund_terminal_failed a b c d e)) = true
is_record _ = false

abbrev pub is_record_succeeded : Call → Bool
is_record_succeeded (Call.db (DbCall.record_event_purchase_refund_succeeded a b c d)) = true
is_record_succeeded _ = false

abbrev pub summary_call : RefundUpdate → Call
summary_call u = Call.db (DbCall.get_event_purchase_summary u.purchase_id)

-- The event is for the purchase's and the refund's amount, the purchase's currency and payment, the
-- refund's provider, and for the provider refund that is pinned, if one is; and it is a failure, or
-- the refund has not succeeded yet.
pub record Matches (purchase : EventPurchaseSummary) (refund : EventPurchaseRefund)
    (p : PaymentsProvider) (u : RefundUpdate) : Type 0 where
  pub amount : purchase.amount_minor ≡ u.amount_minor
  pub refund_amount : refund.amount_minor ≡ u.amount_minor
  pub currency : eq_ignore_ascii_case purchase.currency_code u.currency_code ≡ true
  pub payment : purchase.provider_payment_reference ≡ some u.provider_payment_reference
  pub provider : refund.payment_provider ≡ p.provider
  pub attempt :
      (refund.provider_refund_id ≡ none) ⊎ (refund.provider_refund_id ≡ some u.provider_refund_id)
  pub not_done : (is_failed u.status ≡ true) ⊎ (has_succeeded refund.status ≡ false)

module _ (w : World) (p : PaymentsProvider) (u : RefundUpdate) where
  -- The newest call writes the state of this very refund, under its key and its claim, and the
  -- provider refund that it names is that of the event.
  abbrev pub Written : EventPurchaseRefund → List Call → Type 0
  Written r (Call.db (DbCall.record_event_purchase_refund_pending id key reported claim) ∷ s) =
      (id ≡ r.event_purchase_refund_id)
      × (key ≡ r.idempotency_key)
      × (reported ≡ u.provider_refund_id)
      × (claim ≡ r.claim_id)
  Written r (Call.db (DbCall.record_event_purchase_refund_succeeded id key reported claim) ∷ s) =
      (id ≡ r.event_purchase_refund_id)
      × (key ≡ r.idempotency_key)
      × (reported ≡ u.provider_refund_id)
      × (claim ≡ r.claim_id)
  Written r
        (Call.db (DbCall.record_event_purchase_refund_terminal_failed id key reported text claim)
          ∷ s) =
      (id ≡ r.event_purchase_refund_id)
      × (key ≡ r.idempotency_key)
      × (reported ≡ u.provider_refund_id)
      × (claim ≡ r.claim_id)
  Written r _ = ⊥

  update_refund-succeeded :
      (purchase : EventPurchaseSummary) (refund : EventPurchaseRefund) (s : List Call)
      → has_succeeded refund.status ≡ true
      → is_failed u.status ≡ false
      → count is_record (update_refund w p purchase refund u s).1 ≡ count is_record s
  unfolding update_refund
  update_refund-succeeded purchase refund s h k = ground arith

  load_validated-ok :
      (purchase : EventPurchaseSummary) (refund : EventPurchaseRefund) (s : List Call)
      → (load_validated_refund_for_event w p purchase u s).0 ≡ ok refund
      → w.db.get_event_purchase_refund purchase.event_purchase_id s ≡ ok refund
  unfolding load_validated_refund_for_event
  load_validated-ok purchase refund s h = ground arith

  update_refund-Written :
      (purchase : EventPurchaseSummary) (refund : EventPurchaseRefund) (s : List Call)
      → count is_record (update_refund w p purchase refund u s).1 ≢ count is_record s
      → Written refund (update_refund w p purchase refund u s).1
  unfolding update_refund
  update_refund-Written purchase refund s h = ground arith

  update_refund-Matches :
      (purchase : EventPurchaseSummary) (refund : EventPurchaseRefund) (s : List Call)
      → count is_record (update_refund w p purchase refund u s).1 ≢ count is_record s
      → Matches purchase refund p u
  unfolding update_refund
  update_refund-Matches purchase refund s h = record {
    amount = ground arith;
    refund_amount = ground arith;
    currency = ground arith;
    payment = option_same_exact _ (some u.provider_payment_reference) (ground arith);
    provider = ground arith;
    attempt = elim (Option-cases refund.provider_refund_id) [
      | inl e ↦ inl e
      | inr (id, e) ↦
          let same : (id == u.provider_refund_id) ≡ true = ground (arith, e) in
          inr (rw e (ap some ((eq_iff id u.provider_refund_id).0 same)))
    ];
    not_done = elim (Bool-cases (is_failed u.status)) [
      | inl e ↦ inl e
      | inr e ↦ elim (Bool-cases (has_succeeded refund.status)) [
        | inl k ↦ absurd (h (update_refund-succeeded purchase refund s k e))
        | inr k ↦ inr k
      ]
    ];
  }

  -- The trace when the purchase and its refund are loaded.
  abbrev pub loaded_trace : EventPurchaseSummary → List Call → List Call
  loaded_trace purchase s = (load_validated_refund_for_event w p purchase u (summary_call u ∷ s)).1

  -- If the calls that pass a test grow in number, and loading makes none of them, then the purchase
  -- and its refund were loaded, and the update made them.
  module _ (test : Call → Bool) (not_summary : test (summary_call u) ≡ false)
      (not_refund : (id : ℕ) → test (Call.db (DbCall.get_event_purchase_refund id)) ≡ false) where
    load_validated-count :
        (purchase : EventPurchaseSummary) (s : List Call)
        → count test (load_validated_refund_for_event w p purchase u s).1 ≡ count test s
    unfolding load_validated_refund_for_event
    load_validated-count purchase s = ground (arith, not_refund purchase.event_purchase_id)

    updated :
        (s : List Call)
        → count test (handle_refund_updated w p u s).1 ≢ count test s
        → (purchase : EventPurchaseSummary) × (refund : EventPurchaseRefund)
          × (w.db.get_event_purchase_summary u.purchase_id s ≡ ok purchase)
          × (w.db.get_event_purchase_refund purchase.event_purchase_id (summary_call u ∷ s)
              ≡ ok refund)
          × (count test (update_refund w p purchase refund u (loaded_trace purchase s)).1
              ≢ count test (loaded_trace purchase s))
          × (handle_refund_updated w p u s
              ≡ update_refund w p purchase refund u (loaded_trace purchase s))
    unfolding handle_refund_updated
    updated s h = elim (Result-cases (w.db.get_event_purchase_summary u.purchase_id s)) [
      | inr (e, failed) ↦ absurd (h (rw (failed, not_summary) refl))
      | inl (purchase, found) ↦
          let s1 = summary_call u ∷ s in
          let load = load_validated_refund_for_event w p purchase u in
          let update = λ (r : EventPurchaseRefund). update_refund w p purchase r u in
          let quiet : count test (load s1).1 ≡ count test s =
            rw not_summary at (load_validated-count purchase s1) in
          elim (Result-cases (load s1).0) [
            | inr (e, failed) ↦
                absurd (
                  h (
                    rw found (ap (λ x. count test x.1) (bind_err load update s1 e failed) ∙ quiet)))
            | inl (refund, is_refund) ↦ (
              purchase,
              refund,
              found,
              load_validated-ok purchase refund s1 is_refund,
              λ k. h (
                  rw found (
                    ap (λ x. count test x.1) (bind_ok load update s1 refund is_refund)
                    ∙ k
                    ∙ quiet)),
              rw found (bind_ok load update s1 refund is_refund),
            )
          ]
    ]

  -- When a refund event leads to a write of a refund's provider state, its purchase and the
  -- purchase's refund were loaded, the event matches both, and the write, the last call, is of that
  -- refund and names the provider refund of the event.
  pub handle_refund_updated-Matches :
      (s : List Call)
      → count is_record (handle_refund_updated w p u s).1 ≢ count is_record s
      → (purchase : EventPurchaseSummary) × (refund : EventPurchaseRefund)
        × (w.db.get_event_purchase_summary u.purchase_id s ≡ ok purchase)
        × (w.db.get_event_purchase_refund purchase.event_purchase_id (summary_call u ∷ s)
            ≡ ok refund)
        × Matches purchase refund p u
        × Written refund (handle_refund_updated w p u s).1
  handle_refund_updated-Matches s h =
      let (purchase, refund, found, is_refund, wrote, run) =
        updated is_record refl (λ id. refl) s h in
      (
        purchase,
        refund,
        found,
        is_refund,
        update_refund-Matches purchase refund (loaded_trace purchase s) wrote,
        rw run (update_refund-Written purchase refund (loaded_trace purchase s) wrote),
      )

  -- What the provider is asked to confirm a success.
  abbrev pub poll : EventPurchaseRefund → FindRefundInput
  poll refund = record {
    amount_minor = refund.amount_minor;
    provider_payment_reference = u.provider_payment_reference;
    purchase_id = refund.event_purchase_id;
    provider_refund_id = some u.provider_refund_id;
  }

  -- The provider, asked after the trace `s`, has the refund of the event, and it has succeeded.
  abbrev pub Confirmed : EventPurchaseRefund → List Call → Type 0
  Confirmed refund s =
      (r : RefundPaymentResult) × (p.find_refund (poll refund) s ≡ ok (some r))
      × (r.provider_refund_id ≡ u.provider_refund_id)
      × (r.status ≡ RefundPaymentStatus.succeeded)

  update_refund-Confirmed :
      (purchase : EventPurchaseSummary) (refund : EventPurchaseRefund) (s : List Call)
      → count is_record_succeeded (update_refund w p purchase refund u s).1
        ≢ count is_record_succeeded s
      → (u.status ≡ RefundPaymentStatus.succeeded)
        × ((refund.provider_refund_id ≢ none) ⊎ Confirmed refund s)
  unfolding update_refund
  update_refund-Confirmed purchase refund s h = (
    ground arith,
    elim (Option-cases refund.provider_refund_id) [
      | inr (id, e) ↦ inl (λ k. cc)
      | inl e ↦ elim (Result-cases (p.find_refund (poll refund) s)) [
        | inr (text, f) ↦ absurd (ground (arith, e, f))
        | inl (none, f) ↦ absurd (ground (arith, e, f))
        | inl (some r, f) ↦
            let same : (r.provider_refund_id == u.provider_refund_id) ≡ true =
              ground (arith, e, f) in
            inr (
              r,
              f,
              (eq_iff r.provider_refund_id u.provider_refund_id).0 same,
              ground (arith, e, f),
            )
      ]
    ],
  )

  -- A refund event records a success only if it reports one and, unless the refund was pinned to a
  -- provider refund before, the provider was asked and confirmed that this very refund succeeded.
  pub handle_refund_updated-Confirmed :
      (s : List Call)
      → count is_record_succeeded (handle_refund_updated w p u s).1 ≢ count is_record_succeeded s
      → (purchase : EventPurchaseSummary) × (refund : EventPurchaseRefund)
        × (w.db.get_event_purchase_summary u.purchase_id s ≡ ok purchase)
        × (w.db.get_event_purchase_refund purchase.event_purchase_id (summary_call u ∷ s)
            ≡ ok refund)
        × (u.status ≡ RefundPaymentStatus.succeeded)
        × ((refund.provider_refund_id ≢ none) ⊎ Confirmed refund (loaded_trace purchase s))
  handle_refund_updated-Confirmed s h =
      let (purchase, refund, found, is_refund, wrote, _) =
        updated is_record_succeeded refl (λ id. refl) s h in
      let (reported, confirmed) =
        update_refund-Confirmed purchase refund (loaded_trace purchase s) wrote in
      (purchase, refund, found, is_refund, reported, confirmed)
