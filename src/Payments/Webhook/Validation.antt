-- ===== src/Payments/Webhook/Validation.antt =====
-- The checks that a refund event must pass, `validate_refund_purchase_event` and
-- `validate_refund_event`.
use open_community_groups.Prelude.{
  String, Bool, true, not, Option, none, some, ◌==◌, nat_eq, string_eq, option_same, if◌then◌else◌,
}
use open_community_groups.Prelude.Result.{Result, ok, err, ◌>>◌}
use open_community_groups.Payments.Types.{
  Amount, Text, PaymentProvider, same_provider, EventPurchaseSummary, EventPurchaseRefund,
  RefundUpdate, eq_ignore_ascii_case,
}

-- `if test { return Err(text) }`
abbrev pub reject_if : Bool → String → Result String (Unit {0})
reject_if test text = if test then err text else ok tt

-- `validate_refund_purchase_event`
unfoldable pub validate_refund_purchase_event :
    EventPurchaseSummary → Amount → Text → String → Result String (Unit {0})
validate_refund_purchase_event purchase amount currency reference = do
  reject_if (not (purchase.amount_minor == amount)) "refund webhook amount does not match purchase"
  reject_if (not (eq_ignore_ascii_case purchase.currency_code currency))
      "refund webhook currency does not match purchase"
  reject_if (not (option_same purchase.provider_payment_reference (some reference)))
      "refund webhook payment reference does not match purchase"

-- Whether the event is of the provider refund that is pinned, if one is.
is_current_attempt : Option String → String → Bool
is_current_attempt none id = true
is_current_attempt (some current) id = current == id

unfoldable pub validate_refund_event :
    EventPurchaseSummary → EventPurchaseRefund → PaymentProvider → RefundUpdate → Result String Bool
unfolding validate_refund_purchase_event is_current_attempt
validate_refund_event purchase refund p u = do
  validate_refund_purchase_event purchase u.amount_minor u.currency_code
      u.provider_payment_reference
  reject_if (not (same_provider refund.payment_provider p))
      "refund webhook provider does not match purchase"
  reject_if (not (refund.amount_minor == u.amount_minor))
      "refund webhook amount does not match purchase"
  ok (is_current_attempt refund.provider_refund_id u.provider_refund_id)
