-- ===== src/Website/Contact/Waitlist.antt =====
-- The waitlist: apps/website/src/features/contact/server/waitlist.ts, and `joinWaitlist` of
-- actions.ts.
pub mod Once
use solva.Prelude.{Bool, true, false, Option, none, some, if◌then◌else◌, [], ◌∷◌}
use solva.Prelude.Text.{Text, codes, text_eq}
use solva.Prelude.Effect.{Result, ok, err, Eff, ret, ◌>>=◌}
use solva.Website.Contact.{
  FieldErrors, FieldValues, SubmissionState, invalid, failed, sent, unconfigured, delivery,
  FormData, OutgoingMessage,
}
use solva.Website.Contact.Schema.{
  WaitlistField, waitlist_email, waitlist_organisation, waitlist_role, WaitlistSubmission,
  waitlist_key, waitlist_schema, Validation, valid, rejected, read_fields, is_bot, validate,
}
use solva.Website.Contact.Message.{waitlist_confirmation}
use solva.Website.Contact.Mailer.{MailEnv, send}

abbrev already_listed : Text
already_listed = codes "This email is already on the waitlist."

pub data Listing : Type 0 where
  added listed unlisted : Listing

-- The answer of `contacts.get`: the contact's data, the name of an error, or neither.
pub data Lookup : Type 0 where
  contact : Lookup
  lookup_error : Text → Lookup
  nothing : Lookup

-- The mail service, `resend`, by the operations that are called: `contacts.get` of an address,
-- `contacts.create` in a segment, which answers with an error or none, and `emails.send`. The
-- key of the client comes first.
pub record Resend (W : Type 0) : Type 0 where
  pub contacts_get : Text → Text → Eff W Text Lookup
  pub contacts_create : Text → Text → WaitlistSubmission → Eff W Text (Option Text)
  pub emails_send : Text → OutgoingMessage → Eff W Text (Option Text)

abbrev email_error : FieldErrors WaitlistField
email_error waitlist_email = some already_listed
email_error waitlist_organisation = none
email_error waitlist_role = none

caught : {W : Type 0} → Result Text Listing × W → Listing × W
caught (ok listing, w) = (listing, w)
caught (err cause, w) = (unlisted, w)

listing_of : Option Text → Listing
listing_of none = added
listing_of (some error) = unlisted

module _ {W : Type 0} (resend : Resend W) where
  create : Text → Text → WaitlistSubmission → Eff W Text Listing
  unfolding listing_of
  create api_key segment_id submission = do
    error ← resend.contacts_create api_key segment_id submission
    ret (listing_of error)

  add_unlisted : Text → Text → WaitlistSubmission → Lookup → Eff W Text Listing
  unfolding create
  add_unlisted api_key segment_id submission contact = ret listed
  add_unlisted api_key segment_id submission nothing = create api_key segment_id submission
  add_unlisted api_key segment_id submission (lookup_error name) =
      if text_eq name (codes "not_found")
      then create api_key segment_id submission
      else ret unlisted

  unfoldable pub add_to_waitlist : Text → Text → WaitlistSubmission → W → Listing × W
  unfolding add_unlisted caught
  add_to_waitlist api_key segment_id submission w = caught (
      (do
        existing ← resend.contacts_get api_key submission.email
        add_unlisted api_key segment_id submission existing)
        w)

  -- The confirmation is sent as well as it can be.
  confirm :
      Text
      → WaitlistSubmission
      → FieldValues WaitlistField
      → Listing × W
      → SubmissionState WaitlistField × W
  confirm api_key submission values (listed, w) = (invalid email_error values, w)
  confirm api_key submission values (unlisted, w) = (failed delivery values, w)
  confirm api_key submission values (added, w) =
      let (confirmation, v) =
        send resend.emails_send api_key (waitlist_confirmation submission) w in
      (sent submission.email, v)

  configured :
      WaitlistSubmission
      → FieldValues WaitlistField
      → Option Text
      → Option Text
      → W
      → SubmissionState WaitlistField × W
  unfolding confirm
  configured submission values (some api_key) (some segment_id) w =
      confirm api_key submission values (add_to_waitlist api_key segment_id submission w)
  configured submission values _ _ w = (failed unconfigured values, w)

  validated :
      MailEnv
      → FormData
      → FieldValues WaitlistField
      → Validation WaitlistField WaitlistSubmission
      → W
      → SubmissionState WaitlistField × W
  unfolding configured
  validated env form_data values (rejected errors kept) w = (invalid errors kept, w)
  validated env form_data values (valid submission) w =
      if is_bot form_data
      then (sent submission.email, w)
      else configured submission values env.resend_api_key env.waitlist_segment_id w

  unfoldable pub submit_waitlist :
      (Text → Bool) → MailEnv → FormData → W → SubmissionState WaitlistField × W
  unfolding validated
  submit_waitlist is_email env form_data w =
      let values = read_fields waitlist_key form_data in
      validated env form_data values (validate (waitlist_schema is_email) values) w
