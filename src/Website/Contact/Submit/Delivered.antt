-- ===== src/Website/Contact/Submit/Delivered.antt =====
-- When the mail of a form is delivered: apps/website/src/features/contact/server/submit.ts.
use solva.Prelude.{◌≡◌, refl, ap, Bool, false, Option, none, some}
use solva.Prelude.Text.{Text}
use solva.Prelude.Effect.{Result, ok, err, Eff}
use solva.Website.Contact.{FieldValues, sent, FormData, OutgoingMessage}
use solva.Website.Contact.Schema.{
  Parse, success, failure, Validation, valid, rejected, ContactSubmission, contact_key,
  validation_of, contact_schema, read_fields, is_bot, validate,
}
use solva.Website.Contact.Message.{contact_message}
use solva.Website.Contact.Mailer.{MailEnv, delivery_of, send, send_with, deliver}
use solva.Website.Contact.Submit.{state_of, submit_message, validated, submit, send_contact}

validation_of-valid :
    {F D : Type 0} (values : FieldValues F) (parse : Parse F D) (found : D)
    → validation_of values parse ≡ valid found
    → parse ≡ success found
validation_of-valid values (success other) found h = cc
validation_of-valid values (failure issues) found h = cc

module _ {W : Type 0} (emails_send : Text → OutgoingMessage → Eff W Text (Option Text))
    (env : MailEnv) where
  delivery_of-sent :
      {F : Type 0} (message : OutgoingMessage) (values : FieldValues F)
      (answer : Result Text (Option Text) × W) (address : Text) (v : W)
      → state_of emails_send env message values (delivery_of answer) ≡ (sent address, v)
      → (answer ≡ (ok none, v)) × (message.reply_to ≡ address)
  unfolding state_of delivery_of
  delivery_of-sent message values (ok none, w) address v h = (ap (λ p. (ok none, p.1)) h, cc)
  delivery_of-sent message values (ok (some error), w) address v h = cc
  delivery_of-sent message values (err cause, w) address v h = cc

  pub HasKey : Option Text → OutgoingMessage → W → W → Type 0
  HasKey key message w v =
      (api_key : Text) × (key ≡ some api_key) × (emails_send api_key message w ≡ (ok none, v))

  send_with-sent :
      {F : Type 0} (key : Option Text) (message : OutgoingMessage) (values : FieldValues F)
      (address : Text) (w v : W)
      → state_of emails_send env message values (send_with emails_send key message w)
        ≡ (sent address, v)
      → HasKey key message w v × (message.reply_to ≡ address)
  unfolding send_with send state_of HasKey
  send_with-sent none message values address w v h = cc
  send_with-sent (some api_key) message values address w v h =
      let (answered, replied) =
        delivery_of-sent message values (emails_send api_key message w) address v h in
      ((api_key, refl, answered), replied)

  validated-sent :
      {F D : Type 0} (form_data : FormData) (values : FieldValues F) (compose : D → OutgoingMessage)
      (validation : Validation F D) (address : Text) (w v : W)
      → is_bot form_data ≡ false
      → validated emails_send env form_data values compose validation w ≡ (sent address, v)
      → (found : D) × (validation ≡ valid found)
        × HasKey env.resend_api_key (compose found) w v
        × ((compose found).reply_to ≡ address)
  unfolding validated submit_message deliver
  validated-sent form_data values compose (rejected errors kept) address w v human h = cc
  validated-sent form_data values compose (valid found) address w v human h =
      let (answered, replied) =
        send_with-sent env.resend_api_key (compose found) values address w v (simp human at h) in
      (found, refl, answered, replied)

  -- A contact form of no bot is answered as sent only if its fields passed the validation, a key
  -- of the mail service is set and the service took the mail composed of the data without an
  -- error; the address that is shown is the one of the data, and nothing else was asked for.
  pub send_contact-sent :
      (is_email : Text → Bool) (form_data : FormData) (address : Text) (w v : W)
      → is_bot form_data ≡ false
      → send_contact emails_send env is_email form_data w ≡ (sent address, v)
      → (found : ContactSubmission) × (contact_schema is_email (read_fields contact_key form_data)
          ≡ success found)
        × HasKey env.resend_api_key (contact_message found) w v
        × (found.email ≡ address)
  unfolding send_contact submit contact_message validate
  send_contact-sent is_email form_data address w v human h =
      let values = read_fields contact_key form_data in
      let (found, accepted, answered, replied) =
        validated-sent form_data values contact_message (validate (contact_schema is_email) values)
          address w v human h in
      (
        found,
        validation_of-valid values (contact_schema is_email values) found accepted,
        answered,
        replied,
      )
