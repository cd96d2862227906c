-- ===== src/Mail/Sending.antt =====
-- Sending the messages (mail.service.ts). Whether a message is delivered is a parameter; the state is the list of
-- the messages that were delivered.
use asset_hub.Prelude.{ℕ, none, some, Bool, true, false, List, [], ◌∷◌, ◌++◌, String}
use asset_hub.Prelude.Text.{Text, decimal}
use asset_hub.Prelude.Action.{Action, pure, raise, modify, unavailable, ◌>>=◌}
use asset_hub.Mail.Mailer.{Mailer}
use asset_hub.Mail.Messages.{
  Message, AccessMail, LicenseMail, access_message, license_message, escape,
}

pub data Sent : Type 0 where
  sent disabled : Sent

module _ (delivers : Message → Bool) where
  abbrev pub if_sent : Bool → Message → String → Action (List Message) Sent
  if_sent true message failed = modify (λ out. out ++ message ∷ []) >>= λ _. pure sent
  if_sent false message failed = raise (unavailable failed)

  -- `sendMail`, with the error that takes the place of its own.
  unfoldable pub send_mail : Message → String → Action (List Message) Sent
  send_mail message failed = if_sent (delivers message) message failed

module _ (delivers : Message → Bool) (local_time : ℕ → Text) where
  unfoldable pub send_tenant_access_email : Mailer → AccessMail → Action (List Message) Sent
  unfolding escape
  send_tenant_access_email m input = elim m.transporter [
    | none ↦ pure disabled
    | some _ ↦
        send_mail delivers (access_message local_time m input)
          "Invitation email could not be delivered. Please retry or use the generated setup link."
  ]

  unfoldable pub send_license_expiry_email : Mailer → LicenseMail → Action (List Message) Sent
  unfolding escape decimal
  send_license_expiry_email m input = elim m.transporter [
    | none ↦ pure disabled
    | some _ ↦
        send_mail delivers (license_message local_time m input)
          "License expiry notification could not be delivered."
  ]
