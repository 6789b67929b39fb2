-- ===== src/Payments/Provider.antt =====
-- The provider operations as actions: each records its call and gives the provider's answer.
use open_community_groups.Prelude.{String, Option}
use open_community_groups.Prelude.Exec.{Exec, call}
use open_community_groups.Payments.Types.{
  CheckoutSession, CreateCheckoutSessionInput, FindRefundInput, RefundPaymentInput,
  RefundPaymentResult,
}
use open_community_groups.Payments.Calls.{ProviderCall, Call, PaymentsProvider}

module _ (p : PaymentsProvider) where
  abbrev pub create_checkout_session : CreateCheckoutSessionInput → Exec Call String CheckoutSession
  create_checkout_session a =
      call (Call.provider (ProviderCall.create_checkout_session a)) (p.create_checkout_session a)

  abbrev pub find_refund : FindRefundInput → Exec Call String (Option RefundPaymentResult)
  find_refund a = call (Call.provider (ProviderCall.find_refund a)) (p.find_refund a)

  abbrev pub refund_payment : RefundPaymentInput → Exec Call String RefundPaymentResult
  refund_payment a = call (Call.provider (ProviderCall.refund_payment a)) (p.refund_payment a)
