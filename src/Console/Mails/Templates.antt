-- ===== src/Console/Mails/Templates.antt =====
-- The three mails of apps/web/src/lib/email/templates.ts.
use solva.Prelude.{List, [], ◌∷◌, ◌++◌, Option, none, some}
use solva.Prelude.Text.{Text, codes, join}
use solva.Console.Mails.Escape.{esc, first_name_of}
use solva.Console.Mails.Style.{palette_text, MailSite}
use solva.Console.Mails.Layout.{paragraph, bullet_list, button, details_table, shell}

pub record KybSubmission : Type 0 where
  pub legal_name : Text
  pub contact_name : Text
  pub contact_email : Text
  pub type : Option Text
  pub institution : Option Text
  pub jurisdiction : Option Text
  pub registration_number : Option Text

pub record Mail : Type 0 where
  pub subject : Text
  pub html : Text

unfoldable pub received_line : Text → List Text
received_line company =
    codes "We have received the onboarding details for <strong style=\"color:"
    ∷ palette_text
    ∷ codes ";\">"
    ∷ company
    ∷ codes "</strong>, and a Solva reviewer is verifying them now."
    ∷ []

unfoldable pub approved_line : Text → List Text
approved_line company =
    codes "Good news. <strong style=\"color:"
    ∷ palette_text
    ∷ codes ";\">"
    ∷ company
    ∷ codes "</strong> is verified, and your Solva console is ready."
    ∷ []

unfoldable pub received_heading : Text → List Text
received_heading first = codes "Thanks, " ∷ first ∷ codes ". Your application is in review." ∷ []

unfoldable pub approved_heading : Text → List Text
approved_heading first = codes "You are approved, " ∷ first ∷ codes "." ∷ []

unfoldable pub received_parts : Text → List Text
unfolding paragraph bullet_list
received_parts company =
    paragraph (join (received_line company))
    ∷ paragraph (codes "Here is what happens next:")
    ∷ bullet_list (
        (join (
          codes "A reviewer checks your registration and compliance contact. This is a "
          ∷ codes "person, not an automated step."
          ∷ []))
        ∷ (join (
            codes "Once you are approved, you will get an email and full access to your "
            ∷ codes "console."
            ∷ []))
        ∷ (join (
            codes "We never ask for customer data, and nothing sensitive is needed to "
            ∷ codes "get verified."
            ∷ []))
        ∷ [])
    ∷ paragraph (
        join (
          codes "If a detail changes or you need to update something, just reply to "
          ∷ codes "this email."
          ∷ []))
    ∷ paragraph (
        join (
          codes "<span style=\"display:block;margin-top:18px;\">Talk soon,<br>The Solva "
          ∷ codes "team</span>"
          ∷ []))
    ∷ []

unfoldable pub received_body : Text → Text
unfolding received_parts
received_body company = join (received_parts company)

unfoldable pub approved_parts : Text → Text → List Text
unfolding paragraph button
approved_parts app_url company =
    paragraph (join (approved_line company))
    ∷ paragraph (
        join (
          codes "You can now connect reserve sources, run a proof cycle, and publish a "
          ∷ codes "proof to Stellar. Sign in with your passkey to get started."
          ∷ []))
    ∷ button (codes "Open your console") app_url
    ∷ paragraph (
        join (
          codes "<span style=\"display:block;margin-top:18px;\">Welcome aboard,<br>The "
          ∷ codes "Solva team</span>"
          ∷ []))
    ∷ []

unfoldable pub approved_body : Text → Text → Text
unfolding approved_parts
approved_body app_url company = join (approved_parts app_url company)

or_empty : Option Text → Text
or_empty none = []
or_empty (some s) = s

-- `institution ?? type ?? ""`.
kind_of : Option Text → Option Text → Text
unfolding or_empty
kind_of (some institution) type = institution
kind_of none type = or_empty type

abbrev pub received_preheader : Text
received_preheader = join (
    codes "Your institution is in review. We will email you the moment it is "
    ∷ codes "approved."
    ∷ [])

abbrev pub approved_preheader : Text
approved_preheader = codes "Your console is ready. Sign in to run your first proof."

module _ (mail : MailSite) where
  unfoldable pub kyb_received : KybSubmission → Mail
  unfolding shell received_body first_name_of
  kyb_received about = record {
    subject = codes "We received your Solva application";
    html =
        shell mail received_preheader (join (received_heading (first_name_of about.contact_name)))
          (received_body (esc about.legal_name));
  }

  unfoldable pub kyb_approved : KybSubmission → Mail
  unfolding shell approved_body first_name_of
  kyb_approved about = record {
    subject = codes "You are approved. Welcome to Solva.";
    html =
        shell mail approved_preheader (join (approved_heading (first_name_of about.contact_name)))
          (approved_body mail.app_url (esc about.legal_name));
  }

  unfoldable pub notification_body : KybSubmission → Text
  unfolding details_table paragraph or_empty kind_of
  notification_body about = join (
      paragraph (codes "A new institution just submitted for KYB review.")
      ∷ details_table (
          record { label = codes "Legal name"; value = about.legal_name }
          ∷ record { label = codes "Institution"; value = kind_of about.institution about.type }
          ∷ record { label = codes "Jurisdiction"; value = or_empty about.jurisdiction }
          ∷ record { label = codes "Reg. number"; value = or_empty about.registration_number }
          ∷ record { label = codes "Contact"; value = about.contact_name }
          ∷ record { label = codes "Email"; value = about.contact_email }
          ∷ [])
      ∷ paragraph (codes "Reply to this email to reach the compliance contact directly.")
      ∷ [])

  unfoldable pub kyb_notification : KybSubmission → Mail
  unfolding shell notification_body
  kyb_notification about = record {
    subject = codes "New KYB submission: " ++ about.legal_name;
    html =
        shell mail (join (about.legal_name ∷ codes " (" ∷ about.contact_name ∷ codes ")" ∷ []))
          (codes "New KYB submission") (notification_body about);
  }
