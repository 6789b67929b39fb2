-- ===== src/Notifications/Email/Sends.antt =====
-- Which emails leave: each is built for a claimed notification whose recipient is allowed, and is
-- sent again only after an error that can be retried.
use text.Mathlib.Text.{starts_with}
use open_community_groups.Prelude.{
  ℕ, zero, suc, ◌+◌, ◌≤◌, ◌≡◌, refl, String, Bool, true, false, List, [], ◌∷◌, some, arith, count,
  Bool-cases, inl, inr, ◌⊎◌,
}
use open_community_groups.Prelude.Result.{Result, ok, err, map_err, Result-cases}
use open_community_groups.Notifications.Types.{
  Attachment, Notification, EmailDeliveryError, terminal, SmtpError, from_smtp, is_retryable,
  pause_on_delivery_retry,
}
use open_community_groups.Notifications.Calls.{DbCall, Call, Message, World}
use open_community_groups.Notifications.Content.{prepare_content}
use open_community_groups.Notifications.Email.{
  is_allowed, build_message, transport_send, send_built, send_allowed, send_email, attempts,
  send_email_with_retries,
}

-- The message is the notification's own, and its recipient is on the whitelist, if there is one.
pub record IsOwn (w : World) (n : Notification) (m : Message) : Type 0 where
  pub subject : String
  pub body : String
  pub content : prepare_content w n ≡ ok (subject, body)
  pub built : build_message w n.email subject body n.attachments ≡ ok m
  pub allowed : is_allowed w.cfg.rcpts_whitelist n.email ≡ true

-- Lettre reports the error as none of its client, and as a failure to connect; or as neither
-- permanent nor one of TLS, and as transient or as the shutdown of the transport. So fails what the
-- server has not accepted.
abbrev pub CanRetry : SmtpError → Type 0
CanRetry e =
    (e.is_client ≡ false)
    × ((starts_with e.text "Connection error" ≡ true)
        ⊎ ((e.is_permanent ≡ false)
            × (e.is_tls ≡ false)
            × ((e.is_transient ≡ true) ⊎ (e.is_transport_shutdown ≡ true))))

from_smtp-CanRetry : (e : SmtpError) → is_retryable (from_smtp e) ≡ true → CanRetry e
unfolding from_smtp is_retryable
from_smtp-CanRetry e h = (
  ground arith,
  elim (Bool-cases (starts_with e.text "Connection error")) [
    | inl c ↦ inl c
    | inr c ↦ inr (
      ground (arith, c),
      ground (arith, c),
      elim (Bool-cases e.is_transient) [ inl t ↦ inl t | inr t ↦ inr (ground (arith, c, t)) ],
    )
  ],
)

module _ (w : World) where
  -- What comes before the message is sent: the claim of its notification, or a pause after it was
  -- sent and the transport failed in a way that can be retried.
  abbrev pub Before : Message → List Call → Type 0
  Before m (Call.db DbCall.claim_pending_notification ∷ s) =
      (n : Notification) × (w.db.claim_pending_notification s ≡ ok (some n)) × IsOwn w n m
  Before m (Call.sleep d ∷ (Call.send m' ∷ s)) =
      (e : SmtpError) × (m' ≡ m) × (w.transport m' s ≡ err e) × CanRetry e
  Before m _ = ⊥

  abbrev pub IsSafe : List Call → Type 0
  IsSafe [] = Unit
  IsSafe (Call.send m ∷ s) = Before m s × IsSafe s
  IsSafe (_ ∷ s) = IsSafe s

  attempts-IsSafe :
      (left : ℕ) (m : Message) (s : List Call)
      → Before m s
      → IsSafe s
      → IsSafe (attempts left (transport_send w m) s).1
  unfolding attempts transport_send
  attempts-IsSafe zero m s b h = (b, h)
  attempts-IsSafe (suc left) m s b h = elim (Result-cases (w.transport m s)) [
    | inl (a, e) ↦ rw e (b, h)
    | inr (x, e) ↦ elim (Bool-cases (is_retryable (from_smtp x))) [
      | inl r ↦ rw (e, r) (attempts-IsSafe left m _ (x, refl, e, from_smtp-CanRetry x r) (b, h))
      | inr r ↦ rw (e, r) (b, h)
    ]
  ]

  attempts_none : (left : ℕ) (s : List Call) → (attempts left (λ s'. (ok tt, s')) s).1 ≡ s
  unfolding attempts
  attempts_none zero s = refl
  attempts_none (suc left) s = refl

  attempts_terminal :
      (left : ℕ) (e : String) (s : List Call)
      → (attempts left (λ s'. (err (terminal e), s')) s).1 ≡ s
  unfolding attempts is_retryable
  attempts_terminal zero e s = refl
  attempts_terminal (suc left) e s = refl

  -- The emails of one call of `send_email_with_retries` for a claimed notification.
  pub send_email_with_retries-IsSafe :
      (n : Notification) (subject body : String) (s : List Call)
      → prepare_content w n ≡ ok (subject, body)
      → w.db.claim_pending_notification s ≡ ok (some n)
      → IsSafe s
      → IsSafe
          (send_email_with_retries w n.email subject body n.attachments
            (Call.db DbCall.claim_pending_notification ∷ s)).1
  unfolding send_email_with_retries send_email send_built send_allowed
  send_email_with_retries-IsSafe n subject body s c claimed h =
      elim (Result-cases (build_message w n.email subject body n.attachments)) [
        | inr (e, built) ↦ rw built (rw (attempts_terminal 2 e) h)
        | inl (m, built) ↦ elim (Bool-cases (is_allowed w.cfg.rcpts_whitelist n.email)) [
          | inr refused ↦ rw (built, refused) (rw (attempts_none 2) h)
          | inl allowed ↦
              let own : IsOwn w n m = record {
                subject = subject;
                body = body;
                content = c;
                built = built;
                allowed = allowed;
              } in
              rw (built, allowed) (attempts-IsSafe 2 m _ (n, claimed, own) h)
        ]
      ]

-- What the result of an attempt says of the last call of the trace: it sent a message, and this is how
-- the transport's answer is classified. Or nothing was sent after `s`, since the recipient is not
-- allowed or there is no message to send.
abbrev pub LastSend : World → Result EmailDeliveryError (Unit {0}) → List Call → Type 0
LastSend w r (Call.send m ∷ s) = map_err from_smtp (w.transport m s) ≡ r
LastSend w r _ = ⊥

abbrev pub Unsent : World → String → Result EmailDeliveryError (Unit {0}) → Type 0
Unsent w to_address (ok a) = is_allowed w.cfg.rcpts_whitelist to_address ≡ false
Unsent w to_address (err e) = (text : String) × (e ≡ terminal text)

module _ (w : World) where
  attempts-LastSend :
      (left : ℕ) (m : Message) (s : List Call)
      → LastSend w (attempts left (transport_send w m) s).0 (attempts left (transport_send w m) s).1
  unfolding attempts transport_send
  attempts-LastSend zero m s = refl
  attempts-LastSend (suc left) m s = elim (Result-cases (w.transport m s)) [
    | inl (a, e) ↦ rw e (rw e refl)
    | inr (x, e) ↦ elim (Bool-cases (is_retryable (from_smtp x))) [
      | inl r ↦ rw (e, r) (attempts-LastSend left m _)
      | inr r ↦ rw (e, r) (rw e refl)
    ]
  ]

  pub send_email_with_retries-LastSend :
      (to_address subject body : String) (files : List Attachment) (s : List Call)
      → let (r, t) = send_email_with_retries w to_address subject body files s in
        LastSend w r t ⊎ ((t ≡ s) × Unsent w to_address r)
  unfolding send_email_with_retries send_email send_built send_allowed is_retryable
  send_email_with_retries-LastSend to_address subject body files s =
      elim (Result-cases (build_message w to_address subject body files)) [
        | inr (e, built) ↦ rw built (inr (attempts_terminal w 2 e s, (e, refl)))
        | inl (m, built) ↦ elim (Bool-cases (is_allowed w.cfg.rcpts_whitelist to_address)) [
          | inr refused ↦ rw (built, refused) (inr (attempts_none w 2 s, refused))
          | inl allowed ↦ rw (built, allowed) (inl (attempts-LastSend 2 m s))
        ]
      ]

abbrev pub is_send : Call → Bool
is_send (Call.send m) = true
is_send _ = false

attempts-count :
    (left : ℕ) (send : List Call → Result EmailDeliveryError (Unit {0}) × List Call)
    → ((s : List Call) → count is_send (send s).1 ≤ count is_send s + 1)
    → (s : List Call) → count is_send (attempts left send s).1 ≤ count is_send s + suc left
unfolding attempts
attempts-count zero send once s = omega (arith, once s)
attempts-count (suc left) send once s =
    ground (
      arith,
      once s,
      attempts-count left send once (Call.sleep pause_on_delivery_retry ∷ (send s).1),
    )

-- An email is sent at most three times in a row.
pub send_email_with_retries-count :
    (w : World) (to_address subject body : String) (files : List Attachment) (s : List Call)
    → count is_send (send_email_with_retries w to_address subject body files s).1
      ≤ count is_send s + 3
unfolding send_email_with_retries send_email send_built send_allowed transport_send
send_email_with_retries-count w to_address subject body files s =
    attempts-count 2 (send_email w to_address subject body files) (λ s'. ground arith) s

abbrev pub is_claim : Call → Bool
is_claim (Call.db DbCall.claim_pending_notification) = true
is_claim _ = false

attempts-claims :
    (left : ℕ) (send : List Call → Result EmailDeliveryError (Unit {0}) × List Call)
    → ((s : List Call) → count is_claim (send s).1 ≡ count is_claim s)
    → (s : List Call) → count is_claim (attempts left send s).1 ≡ count is_claim s
unfolding attempts
attempts-claims zero send kept s = kept s
attempts-claims (suc left) send kept s = ground (
  arith,
  kept s,
  attempts-claims left send kept (Call.sleep pause_on_delivery_retry ∷ (send s).1),
)

pub send_email_with_retries-claims :
    (w : World) (to_address subject body : String) (files : List Attachment) (s : List Call)
    → count is_claim (send_email_with_retries w to_address subject body files s).1
      ≡ count is_claim s
unfolding send_email_with_retries send_email send_built send_allowed transport_send
send_email_with_retries-claims w to_address subject body files s =
    attempts-claims 2 (send_email w to_address subject body files) (λ s'. ground arith) s
