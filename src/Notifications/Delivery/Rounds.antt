-- ===== src/Notifications/Delivery/Rounds.antt =====
-- What a round of the delivery worker sends and records.
use open_community_groups.Prelude.{
  ◌≡◌, refl, String, none, some, List, ◌∷◌, ◌⊎◌, inl, inr, arith, ◌∙◌, ◌≤◌, ◌+◌, ◌*◌, count,
}
use open_community_groups.Prelude.Result.{Result, ok, err, Result-cases}
use open_community_groups.Notifications.Types.{
  Notification, EmailDeliveryError, retryable, terminal, to_string, delivery_requeue_base_delay,
  delivery_requeue_max_delay, delivery_max_claims,
}
use open_community_groups.Notifications.Calls.{DbCall, Call, World}
use open_community_groups.Notifications.Content.{prepare_content}
use open_community_groups.Notifications.Email.{send_email_with_retries}
use open_community_groups.Notifications.Email.Sends.{
  IsSafe, is_send, is_claim, send_email_with_retries-count, send_email_with_retries-claims,
  LastSend, Unsent, send_email_with_retries-IsSafe, send_email_with_retries-LastSend,
}
use open_community_groups.Notifications.Delivery.{
  deliver_content, deliver_claimed, deliver_option, deliver_notification, record_delivery_error,
}

-- What is recorded for each way in which the sending of a notification may end.
abbrev pub recorded : Notification → Result EmailDeliveryError (Unit {0}) → DbCall
recorded n (ok a) = DbCall.update_notification n none
recorded n (err (retryable e)) =
    DbCall.requeue_notification n e delivery_requeue_base_delay delivery_requeue_max_delay
      delivery_max_claims
recorded n (err (terminal e)) = DbCall.update_notification n (some e)
recorded n (err (EmailDeliveryError.unknown e)) = DbCall.mark_notification_delivery_unknown n e

module _ (w : World) where
  content_lem :
      (n : Notification) (subject body : String) (s : List Call)
      → let (r, t) = send_email_with_retries w n.email subject body n.attachments s in
        (deliver_content w n (ok (subject, body)) s).1 ≡ Call.db (recorded n r) ∷ t
  unfolding deliver_content record_delivery_error to_string
  content_lem n subject body s = ground arith

  content_failed :
      (n : Notification) (e : String) (s : List Call)
      → (deliver_content w n (err e) s).1 ≡ Call.db (recorded n (err (terminal e))) ∷ s
  unfolding deliver_content
  content_failed n e s = refl

  claimed_lem :
      (n : Notification) (s : List Call)
      → (deliver_claimed w n s).1 ≡ (deliver_content w n (prepare_content w n) s).1
  unfolding deliver_claimed
  claimed_lem n s = ground arith

  -- When a claimed notification is processed, the last call records how the last attempt to send it
  -- ended: a message that the transport accepted is recorded as delivered, a failure that delivered
  -- nothing is requeued, one that may have delivered it is marked unknown, and any other is final. If
  -- no message was sent, this is recorded as delivered for a recipient off the whitelist only, and is
  -- a final failure otherwise.
  pub deliver_claimed-recorded :
      (n : Notification) (s : List Call)
      → (r : Result EmailDeliveryError (Unit {0})) × (t : List Call) × ((deliver_claimed w n s).1
          ≡ Call.db (recorded n r) ∷ t)
        × (LastSend w r t ⊎ ((t ≡ s) × Unsent w n.email r))
  deliver_claimed-recorded n s = elim (Result-cases (prepare_content w n)) [
    | inr (e, c) ↦
        (err (terminal e), s, claimed_lem n s ∙ rw c (content_failed n e s), inr (refl, (e, refl)))
    | inl ((subject, body), c) ↦
        let (r, t) = send_email_with_retries w n.email subject body n.attachments s in
        (
          r,
          t,
          claimed_lem n s ∙ rw c (content_lem n subject body s),
          send_email_with_retries-LastSend w n.email subject body n.attachments s,
        )
  ]

  deliver_claimed-IsSafe :
      (n : Notification) (s : List Call)
      → w.db.claim_pending_notification s ≡ ok (some n)
      → IsSafe w s
      → IsSafe w (deliver_claimed w n (Call.db DbCall.claim_pending_notification ∷ s)).1
  deliver_claimed-IsSafe n s claimed h =
      let s' = Call.db DbCall.claim_pending_notification ∷ s in
      elim (Result-cases (prepare_content w n)) [
        | inr (e, c) ↦ rw (claimed_lem n s') (rw c (rw (content_failed n e s') h))
        | inl ((subject, body), c) ↦ rw (claimed_lem n s') (
            rw c (
              rw (content_lem n subject body s')
                (send_email_with_retries-IsSafe w n subject body s c claimed h)))
      ]

  -- In a round, every email that is sent is built for a notification claimed just before, for a
  -- recipient that is allowed, or was sent just before without being delivered.
  pub deliver_notification-IsSafe :
      (s : List Call) → IsSafe w s → IsSafe w (deliver_notification w s).1
  unfolding deliver_notification deliver_option
  deliver_notification-IsSafe s h = elim (Result-cases (w.db.claim_pending_notification s)) [
    | inr (e, c) ↦ rw c h
    | inl (none, c) ↦ rw c h
    | inl (some n, c) ↦ rw c (deliver_claimed-IsSafe n s c h)
  ]

-- At most three emails are sent for each claim.
abbrev pub IsBounded : List Call → Type 0
IsBounded s = count is_send s ≤ 3 * count is_claim s

module _ (w : World) where
  content-count :
      (n : Notification) (c : Result String (String × String)) (s : List Call)
      → (count is_send (deliver_content w n c s).1 ≤ count is_send s + 3)
        × (count is_claim (deliver_content w n c s).1 ≡ count is_claim s)
  content-count n (err e) s = rw (content_failed w n e s) (ground arith)
  content-count n (ok (subject, body)) s = rw (content_lem w n subject body s) (
      ground (
        arith,
        send_email_with_retries-count w n.email subject body n.attachments s,
        send_email_with_retries-claims w n.email subject body n.attachments s,
      ))

  pub deliver_notification-IsBounded :
      (s : List Call) → IsBounded s → IsBounded (deliver_notification w s).1
  unfolding deliver_notification deliver_option
  deliver_notification-IsBounded s h =
      let s' = Call.db DbCall.claim_pending_notification ∷ s in
      elim (Result-cases (w.db.claim_pending_notification s)) [
        | inr (e, c) ↦ rw c (omega arith)
        | inl (none, c) ↦ rw c (omega arith)
        | inl (some n, c) ↦
            rw c (rw (claimed_lem w n s') (omega (arith, content-count n (prepare_content w n) s')))
      ]
