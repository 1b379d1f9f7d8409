-- ===== src/Website/Contact/Examples.antt =====
-- The forms at concrete submissions: apps/website/src/features/contact.
use solva.Prelude.{
  arith, ◌≡◌, ◌≢◌, refl, ap, sym, ◌∙◌, Bool, true, false, ◌||◌, List, [], ◌∷◌, Option, none, some,
  if◌then◌else◌,
}
use solva.Prelude.Text.{Text, codes, text_eq, text_eq_refl}
use mathlib.Core.Path.{subst}
use solva.Prelude.Effect.{Eff, ret}
use solva.Website.Contact.{sent, FormData, OutgoingMessage, FieldValues}
use solva.Website.Contact.Schema.{
  custodial_app, WaitlistSubmission, ContactSubmission, ContactField, contact_key, success,
  contact_schema, read_fields, is_bot,
}
use solva.Website.Contact.Schema.Bounds.{IsBounded, contact_schema-IsBounded}
use solva.Website.Contact.Message.{contact_message}
use solva.Website.Contact.Mailer.{MailEnv}
use solva.Website.Contact.Submit.{send_contact}
use solva.Website.Contact.Submit.Delivered.{HasKey, send_contact-sent}
use solva.Website.Contact.Waitlist.{Resend, Lookup, contact, nothing, submit_waitlist}
use solva.Website.Contact.Waitlist.Once.{IsFound, ListLaws, after_all, submit_waitlist-once}

abbrev field_of : List (Text × Text) → FormData
field_of [] key = none
field_of ((name, value) ∷ fields) key = if text_eq name key then some value else field_of fields key

abbrev form : FormData
form = field_of (
    (codes "name", codes "Ines Arden")
    ∷ (codes "email", codes "ines@ardenpay.example")
    ∷ (codes "organisation", codes "Arden  Pay")
    ∷ (codes "role", codes "Custodial app")
    ∷ (codes "asset", codes "EURC")
    ∷ (codes "message", codes "We want to publish.")
    ∷ (codes "website", [])
    ∷ [])

abbrev any_email : Text → Bool
any_email address = true

abbrev env : MailEnv
env = record { resend_api_key = some (codes "re_test"); waitlist_segment_id = some (codes "seg") }

abbrev submission : ContactSubmission
submission = record {
  name = codes "Ines Arden";
  email = codes "ines@ardenpay.example";
  organisation = codes "Arden Pay";
  role = custodial_app;
  asset = codes "EURC";
  message = codes "We want to publish.";
}

-- The world is the list of the waitlist's addresses.
abbrev is_listed : Text → List Text → Bool
is_listed address [] = false
is_listed address (listed ∷ more) = text_eq listed address || is_listed address more

abbrev look_up : Bool → Lookup
look_up true = contact
look_up false = nothing

abbrev take_mail : Text → OutgoingMessage → Eff (List Text) Text (Option Text)
take_mail api_key message w = ret none w

abbrev resend : Resend (List Text)
resend = record {
  contacts_get = λ api_key address w. ret (look_up (is_listed address w)) w;
  contacts_create = λ api_key segment_id joined w. ret none (joined.email ∷ w);
  emails_send = take_mail;
}

form-accepted : contact_schema any_email (read_fields contact_key form) ≡ success submission
unfolding contact_schema text_eq read_fields solva.Website.Contact.Schema.tidy
    solva.Prelude.Text.trim
form-accepted = refl

contact_schema-IsBounded_example : IsBounded any_email submission
contact_schema-IsBounded_example =
    contact_schema-IsBounded any_email (read_fields contact_key form) submission form-accepted

form-not_bot : is_bot form ≡ false
unfolding is_bot text_eq solva.Prelude.Text.trim
form-not_bot = refl

form-sent :
    send_contact take_mail env any_email form [] ≡ (sent (codes "ines@ardenpay.example"), [])
unfolding send_contact solva.Website.Contact.Schema.validate contact_schema text_eq read_fields
    solva.Website.Contact.Schema.tidy solva.Prelude.Text.trim is_bot
    solva.Website.Contact.Mailer.deliver contact_message
form-sent = refl

send_contact-sent_example :
    (found : ContactSubmission) × (contact_schema any_email (read_fields contact_key form)
      ≡ success found)
    × HasKey take_mail env env.resend_api_key (contact_message found) [] []
    × (found.email ≡ codes "ines@ardenpay.example")
send_contact-sent_example =
    send_contact-sent take_mail env any_email form (codes "ines@ardenpay.example") [] []
      form-not_bot form-sent

form-joined :
    submit_waitlist resend any_email env form []
    ≡ (sent (codes "ines@ardenpay.example"), codes "ines@ardenpay.example" ∷ [])
unfolding submit_waitlist solva.Website.Contact.Schema.validate
    solva.Website.Contact.Schema.waitlist_schema text_eq read_fields solva.Prelude.Text.trim
    solva.Website.Contact.Schema.tidy is_bot solva.Website.Contact.Waitlist.add_to_waitlist
    solva.Website.Contact.Mailer.send
form-joined = refl

IsListed : List Text → Text → Type 0
IsListed w address = is_listed address w ≡ true

answered : (a b : Lookup) (w v : List Text) → ret a w ≡ ret {E = Text} b v → a ≡ b
answered a b w v h = cc

resend-ListLaws : ListLaws resend IsListed
unfolding IsListed IsFound
resend-ListLaws = record {
  found = λ api_key address w v answer on_list same.
      subst IsFound (sym (ap look_up on_list) ∙ answered _ _ _ _ same) tt;
  created = λ api_key segment_id joined w v same.
      subst (λ x. is_listed joined.email x ≡ true) (ap (λ p. p.1) same)
        (simp (text_eq_refl joined.email));
  kept = λ api_key address message w on_list. on_list;
  kept_by_get = λ api_key address other w on_list. on_list;
  kept_by_create = λ api_key segment_id address joined w on_list. ground arith;
}

submit_waitlist-once_example :
    (submit_waitlist resend any_email env form (
      after_all resend IsListed resend-ListLaws any_email env
        (form ∷ form ∷ [])
        (codes "ines@ardenpay.example" ∷ []))).0
    ≢ sent (codes "ines@ardenpay.example")
submit_waitlist-once_example =
    submit_waitlist-once resend IsListed resend-ListLaws any_email env form (form ∷ form ∷ []) form
      (codes "ines@ardenpay.example") [] (codes "ines@ardenpay.example" ∷ []) form-not_bot
      form-not_bot form-joined
