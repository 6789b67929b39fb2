-- ===== src/Payments/Manager/Effects.antt =====
-- What the operations do beside their result: notifications and calls.
use open_community_groups.Prelude.{
  String, ◌≡◌, ◌≢◌, refl, ◌⊎◌, inl, inr, Bool, true, false, some, List, ◌∷◌, arith, count, is_some,
  Option-cases,
}
use open_community_groups.Prelude.Result.{ok, Result-cases}
use open_community_groups.Payments.Types.{
  Uuid, PaymentsWebhookEvent, noop, CompleteRefundRecoveryInput, EventPurchaseRefundRecoveryContext,
}
use open_community_groups.Payments.Calls.{DbCall, Call, PaymentsProvider, World}
use open_community_groups.Payments.Manager.{
  complete_free_checkout, complete_refund_recovery, handle_webhook,
}

abbrev pub is_enqueue : Call → Bool
is_enqueue (Call.db (DbCall.enqueue n)) = true
is_enqueue _ = false

module _ (w : World) where
  -- A free checkout succeeds exactly when the database completes the purchase, whatever becomes of
  -- the notification, and a notification is enqueued only for a purchase that it completed.
  pub complete_free_checkout-result :
      (community_id event_id purchase_id user_id : Uuid) (s : List Call)
      → ((complete_free_checkout w community_id event_id purchase_id user_id s).0
          ≡ w.db.complete_free_event_purchase purchase_id s)
        × ((count is_enqueue
                (complete_free_checkout w community_id event_id purchase_id user_id s).1
              ≡ count is_enqueue s)
            ⊎ (w.db.complete_free_event_purchase purchase_id s ≡ ok tt))
  unfolding complete_free_checkout
  complete_free_checkout-result community_id event_id purchase_id user_id s =
      elim (Result-cases (w.db.complete_free_event_purchase purchase_id s)) [
        | inl (tt, e) ↦ (ground (arith, e), inr e)
        | inr (t, e) ↦ (ground (arith, e), inl (ground (arith, e)))
      ]

  -- The last call of a completed recovery: for the refund of the loaded context, with notification
  -- data exactly where the context asks for a notification; and the database accepted it.
  abbrev pub IsRecovered :
      CompleteRefundRecoveryInput → EventPurchaseRefundRecoveryContext → List Call → Type 0
  IsRecovered i c
        (Call.db (DbCall.complete_event_purchase_refund_recovery actor group id reference note v)
          ∷ s) =
      (actor ≡ i.actor_user_id)
      × (group ≡ i.group_id)
      × (id ≡ c.event_purchase_refund_id)
      × (reference ≡ i.recovery_reference)
      × (note ≡ i.recovery_note)
      × (is_some v ≡ c.notification_required)
      × (w.db.complete_event_purchase_refund_recovery actor group id reference note v s ≡ ok tt)
  IsRecovered i c _ = ⊥

  -- When a refund recovery succeeds, the database gave the recovery's context and accepted, as the
  -- last call, its completion, with notification data exactly where the context asks for it.
  pub complete_refund_recovery-IsRecovered :
      (i : CompleteRefundRecoveryInput) (s : List Call)
      → (complete_refund_recovery w i s).0 ≡ ok tt
      → (c : EventPurchaseRefundRecoveryContext) × (w.db.get_event_purchase_refund_recovery_context
            i.group_id i.event_purchase_id s
          ≡ ok c)
        × IsRecovered i c (complete_refund_recovery w i s).1
  unfolding complete_refund_recovery
  complete_refund_recovery-IsRecovered i s h =
      elim (Result-cases
        (w.db.get_event_purchase_refund_recovery_context i.group_id i.event_purchase_id s)) [
          | inl (c, e) ↦ (c, e, ground (arith, e))
          | inr (t, e) ↦ absurd (ground (arith, e))
        ]

  -- A webhook leads to a call only if a provider is configured and has verified its payload, and
  -- the event is not one to be ignored.
  pub handle_webhook-verified :
      (headers body : String) (s : List Call)
      → (handle_webhook w headers body s).1 ≢ s
      → (p : PaymentsProvider) × (event : PaymentsWebhookEvent) × (w.payments_provider ≡ some p)
        × (p.verify_and_parse_webhook headers body ≡ ok event)
        × (event ≢ noop)
  unfolding handle_webhook
  handle_webhook-verified headers body s h = elim (Option-cases w.payments_provider) [
    | inl e ↦ absurd (h (rw e refl))
    | inr (p, e) ↦ elim (Result-cases (p.verify_and_parse_webhook headers body)) [
      | inr (t, f) ↦ absurd (h (rw (e, f) refl))
      | inl (event, f) ↦ (p, event, e, f, λ k. h (rw (e, f, k) refl))
    ]
  ]
