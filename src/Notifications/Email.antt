-- ===== src/Notifications/Email.antt =====
-- `DeliveryWorker::send_email` and `send_email_with_retries`.
pub mod Sends
use open_community_groups.Prelude.{
  ℕ, zero, suc, ◌-◌, String, Bool, true, false, not, ◌&&◌, Option, none, some, List, [], ◌∷◌,
  if◌then◌else◌, is_empty, any, ◌==◌, string_eq,
}
use open_community_groups.Prelude.Result.{Result, ok, err, ◌>>=◌, map_err as map_err_result}
use open_community_groups.Prelude.Exec
use open_community_groups.Prelude.Exec.{Exec, fail, handle, pure, call}
use open_community_groups.Notifications.Types.{
  Attachment, EmailDeliveryError, terminal, SmtpError, from_smtp, is_retryable,
  delivery_send_max_attempts, pause_on_delivery_retry,
}
use open_community_groups.Notifications.Calls.{Call, Message, MessageParts, World}

abbrev Delivery : Type 0 → Type 0
Delivery = Exec Call EmailDeliveryError

-- Whether the whitelist, if there is one, has the recipient; an empty one allows nobody.
pub is_allowed : Option (List String) → String → Bool
is_allowed none to_address = true
is_allowed (some whitelist) to_address =
    not (is_empty whitelist) && any (λ wa. wa == to_address) whitelist

-- The loop of `send_email_with_retries`, with so many attempts left after this one.
attempts : ℕ → Delivery (Unit {0}) → Delivery (Unit {0})
attempts zero send = send
attempts (suc left) send = λ s.
    handle (send s) (λ _. pure tt)
      (λ e s'.
        let again = attempts left send (Call.sleep pause_on_delivery_retry ∷ s') in
        if is_retryable e then again else (err e, s'))

module _ (w : World) where
  attachment_parts : List Attachment → Result String (List (String × String × String))
  attachment_parts [] = ok []
  attachment_parts (a ∷ rest) = do
    content_type ← w.lettre.parse_content_type a.content_type
    parts ← attachment_parts rest
    ok ((content_type, a.file_name, a.file_content) ∷ parts)

  -- The message that `send_email` builds, without the date and the boundary that lettre puts in it.
  pub build_message : String → String → String → List Attachment → Result String Message
  unfolding attachment_parts
  build_message to_address subject body attachments = do
    from_address ← w.lettre.parse_address w.cfg.from_address
    to ← w.lettre.parse_mailbox to_address
    parts ← attachment_parts attachments
    let message : MessageParts = record {
      from_name = w.cfg.from_name;
      from_address = from_address;
      to = to;
      subject = subject;
      body = body;
      attachments = parts;
    }
    if is_empty attachments then w.lettre.singlepart message else w.lettre.multipart message

  -- `LettreEmailSender::send`
  transport_send : Message → Delivery (Unit {0})
  transport_send message = Exec.map_err from_smtp (call (Call.send message) (w.transport message))

  send_allowed : Bool → Message → Delivery (Unit {0})
  unfolding transport_send
  send_allowed true message = transport_send message
  send_allowed false message = pure tt

  send_built : String → Result String Message → Delivery (Unit {0})
  unfolding is_allowed send_allowed
  send_built to_address (ok message) =
      send_allowed (is_allowed w.cfg.rcpts_whitelist to_address) message
  send_built to_address (err e) = fail (terminal e)

  send_email : String → String → String → List Attachment → Delivery (Unit {0})
  unfolding build_message send_built
  send_email to_address subject body attachments =
      send_built to_address (build_message to_address subject body attachments)

  pub send_email_with_retries : String → String → String → List Attachment → Delivery (Unit {0})
  unfolding send_email attempts
  send_email_with_retries to_address subject body attachments =
      attempts (delivery_send_max_attempts - 1) (send_email to_address subject body attachments)
