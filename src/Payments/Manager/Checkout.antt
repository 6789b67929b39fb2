-- ===== src/Payments/Manager/Checkout.antt =====
-- The URL that an attendee is sent to.
use open_community_groups.Prelude.{
  String, ◌≡◌, ◌⊎◌, inl, inr, Option, none, some, List, ◌∷◌, arith, Option-cases, ap, ◌∙◌,
}
use open_community_groups.Prelude.Result.{Result, ok, err}
use open_community_groups.Payments.Types.{
  PreparedEventCheckout, EventPurchaseSummary, Uuid, CreateCheckoutSessionInput, PaymentProvider,
  CheckoutSession,
}
use open_community_groups.Payments.Calls.{DbCall, ProviderCall, Call, PaymentsProvider, World}
use open_community_groups.Payments.Manager.{get_or_create_checkout_redirect_url}

abbrev pub stored_url : Result String EventPurchaseSummary → Option String
stored_url (ok purchase) = purchase.provider_checkout_url
stored_url (err e) = none

-- The provider that is configured, of this kind, created the session.
abbrev pub CreatedBy :
    Option PaymentsProvider
    → CreateCheckoutSessionInput
    → PaymentProvider
    → CheckoutSession
    → List Call
    → Type 0
CreatedBy none i kind session s = ⊥
CreatedBy (some p) i kind session s =
    (kind ≡ p.provider) × (p.create_checkout_session i s ≡ ok session)

module _ (w : World) (c : PreparedEventCheckout) (user_id : Uuid) where
  -- The trace ends in: the configured provider, asked for a session for the purchase's amount and the
  -- group's recipient, answered with one; the database accepted that very session, under that
  -- provider, for the purchase, and then gave the purchase with the URL.
  abbrev pub IsCanonical : String → List Call → Type 0
  IsCanonical url
        (Call.db (DbCall.get_event_purchase_summary id)
          ∷ (Call.db (DbCall.attach_checkout_session_to_event_purchase a p session)
              ∷ (Call.provider (ProviderCall.create_checkout_session i) ∷ s))) =
      (id ≡ c.purchase.event_purchase_id)
      × (a ≡ c.purchase.event_purchase_id)
      × (i.purchase_id ≡ c.purchase.event_purchase_id)
      × (i.amount_minor ≡ c.purchase.amount_minor)
      × (i.recipient ≡ c.recipient)
      × (i.user_id ≡ user_id)
      × CreatedBy w.payments_provider i p session s
      × (w.db.attach_checkout_session_to_event_purchase a p session
            (Call.provider (ProviderCall.create_checkout_session i) ∷ s)
          ≡ ok tt)
      × (stored_url (
            w.db.get_event_purchase_summary id (
              Call.db (DbCall.attach_checkout_session_to_event_purchase a p session)
              ∷ (Call.provider (ProviderCall.create_checkout_session i) ∷ s)))
          ≡ some url)
  IsCanonical url _ = ⊥

  get_or_create-new :
      (s : List Call) (url : String)
      → c.purchase.provider_checkout_url ≡ none
      → (get_or_create_checkout_redirect_url w c user_id s).0 ≡ ok url
      → IsCanonical url (get_or_create_checkout_redirect_url w c user_id s).1
  unfolding get_or_create_checkout_redirect_url
  get_or_create-new s url h k = ground arith

  get_or_create-old :
      (s : List Call) (old url : String)
      → c.purchase.provider_checkout_url ≡ some old
      → (get_or_create_checkout_redirect_url w c user_id s).0 ≡ ok url
      → (old ≡ url) × ((get_or_create_checkout_redirect_url w c user_id s).1 ≡ s)
  unfolding get_or_create_checkout_redirect_url
  get_or_create-old s old url h k = ground arith

  -- The URL that is returned is the one that the purchase had, and then no call was made; or the
  -- purchase had none, and it is the one that the database holds after it accepted the session that
  -- the configured provider created, directly before, for this purchase, amount, recipient and user.
  pub get_or_create-IsCanonical :
      (s : List Call) (url : String)
      → (get_or_create_checkout_redirect_url w c user_id s).0 ≡ ok url
      → ((c.purchase.provider_checkout_url ≡ some url)
          × ((get_or_create_checkout_redirect_url w c user_id s).1 ≡ s))
        ⊎ ((c.purchase.provider_checkout_url ≡ none)
            × IsCanonical url (get_or_create_checkout_redirect_url w c user_id s).1)
  get_or_create-IsCanonical s url k = elim (Option-cases c.purchase.provider_checkout_url) [
    | inl e ↦ inr (e, get_or_create-new s url e k)
    | inr (old, e) ↦
        let (same, quiet) = get_or_create-old s old url e k in inl (e ∙ ap some same, quiet)
  ]
