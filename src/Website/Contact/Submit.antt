-- ===== src/Website/Contact/Submit.antt =====
-- The sending of a form by mail: apps/website/src/features/contact/server/submit.ts, and
-- `sendContact` of actions.ts.
pub mod Delivered
use solva.Prelude.{Bool, true, false, if◌then◌else◌}
use solva.Prelude.Text.{Text}
use solva.Prelude.Effect.{Eff}
use solva.Prelude.{Option}
use solva.Website.Contact.{
  FieldValues, SubmissionState, invalid, failed, sent, FormData, OutgoingMessage,
}
use solva.Website.Contact.Schema.{
  Parse, Validation, valid, rejected, ContactField, contact_key, contact_schema, read_fields,
  is_bot, validate,
}
use solva.Website.Contact.Message.{contact_message}
use solva.Website.Contact.Mailer.{MailEnv, DeliveryResult, delivered, undelivered, deliver}

module _ {W : Type 0} (emails_send : Text → OutgoingMessage → Eff W Text (Option Text))
    (env : MailEnv) where
  state_of :
      {F : Type 0} → OutgoingMessage → FieldValues F → DeliveryResult × W → SubmissionState F × W
  state_of message values (delivered, w) = (sent message.reply_to, w)
  state_of message values (undelivered reason, w) = (failed reason values, w)

  submit_message :
      {F : Type 0} → FormData → FieldValues F → OutgoingMessage → W → SubmissionState F × W
  unfolding state_of
  submit_message form_data values message w =
      if is_bot form_data
      then (sent message.reply_to, w)
      else state_of message values (deliver emails_send env message w)

  validated :
      {F D : Type 0}
      → FormData
      → FieldValues F
      → (D → OutgoingMessage)
      → Validation F D
      → W
      → SubmissionState F × W
  unfolding submit_message
  validated form_data values compose (rejected errors kept) w = (invalid errors kept, w)
  validated form_data values compose (valid found) w =
      submit_message form_data values (compose found) w

  unfoldable pub submit :
      {F D : Type 0}
      → FormData
      → (FieldValues F → Parse F D)
      → (F → Text)
      → (D → OutgoingMessage)
      → W
      → SubmissionState F × W
  unfolding validated
  submit form_data schema key compose w =
      let values = read_fields key form_data in
      validated form_data values compose (validate schema values) w

  unfoldable pub send_contact : (Text → Bool) → FormData → W → SubmissionState ContactField × W
  unfolding submit
  send_contact is_email form_data w =
      submit form_data (contact_schema is_email) contact_key contact_message w
