-- ===== src/Website/Contact.antt =====
-- The contact and waitlist forms: apps/website/src/features/contact, types.ts. The checks of
-- `string` by zod, the FormData and the mail service are told by what their documentation says;
-- the test for a mail address and the mail service are parameters.
pub mod Schema
pub mod Message
pub mod Prefill
pub mod Mailer
pub mod Submit
pub mod Waitlist
pub mod Binding
mod Examples
use solva.Prelude.{Bool, true, false, Option, none, some}
use solva.Prelude.Text.{Text}

-- `FieldValues`, where every field has a value.
abbrev pub FieldValues : Type 0 → Type 0
FieldValues F = F → Text

abbrev pub FieldErrors : Type 0 → Type 0
FieldErrors F = F → Option Text

pub data FailureReason : Type 0 where
  unconfigured delivery : FailureReason

pub data SubmissionState (F : Type 0) : Type 0 where
  idle : SubmissionState F
  invalid : FieldErrors F → FieldValues F → SubmissionState F
  failed : FailureReason → FieldValues F → SubmissionState F
  sent : Text → SubmissionState F

pub record OutgoingMessage : Type 0 where
  pub to : Text
  pub subject : Text
  pub text : Text
  pub reply_to : Text

-- What `FormData.get` answers: none where the field is missing or is a file.
abbrev pub FormData : Type 0
FormData = Text → Option Text
