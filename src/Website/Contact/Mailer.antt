-- ===== src/Website/Contact/Mailer.antt =====
-- The settings of the mail service and the sending of one mail:
-- apps/website/src/features/contact/server/env.ts and mailer.ts.
use solva.Prelude.{Option, none, some, [], ◌∷◌}
use solva.Prelude.Text.{Text, trim}
use solva.Prelude.Effect.{Result, ok, err, Eff}
use solva.Website.Contact.{FailureReason, unconfigured, delivery, OutgoingMessage}

pub record MailEnv : Type 0 where
  pub resend_api_key : Option Text
  pub waitlist_segment_id : Option Text

or_null : Text → Option Text
or_null [] = none
or_null (c ∷ s) = some (c ∷ s)

-- A setting that is missing or blank is none.
unfoldable pub optional_setting : Option Text → Option Text
unfolding or_null
optional_setting none = none
optional_setting (some value) = or_null (trim value)

unfoldable pub read_mail_env : Option Text → Option Text → MailEnv
unfolding optional_setting
read_mail_env api_key segment_id = record {
  resend_api_key = optional_setting api_key;
  waitlist_segment_id = optional_setting segment_id;
}

pub data DeliveryResult : Type 0 where
  delivered : DeliveryResult
  undelivered : FailureReason → DeliveryResult

-- The service answers with an error, or none, or throws.
unfoldable pub delivery_of : {W : Type 0} → Result Text (Option Text) × W → DeliveryResult × W
delivery_of (ok none, w) = (delivered, w)
delivery_of (ok (some error), w) = (undelivered delivery, w)
delivery_of (err cause, w) = (undelivered delivery, w)

-- `emails.send` of a client with the key.
module _ {W : Type 0} (emails_send : Text → OutgoingMessage → Eff W Text (Option Text)) where
  unfoldable pub send : Text → OutgoingMessage → W → DeliveryResult × W
  unfolding delivery_of
  send api_key message w = delivery_of (emails_send api_key message w)

  unfoldable pub send_with : Option Text → OutgoingMessage → W → DeliveryResult × W
  unfolding send
  send_with none message w = (undelivered unconfigured, w)
  send_with (some api_key) message w = send api_key message w

  unfoldable pub deliver : MailEnv → OutgoingMessage → W → DeliveryResult × W
  unfolding send_with
  deliver env message w = send_with env.resend_api_key message w
