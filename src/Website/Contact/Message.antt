-- ===== src/Website/Contact/Message.antt =====
-- The mails that the forms send: apps/website/src/features/contact/lib/message.ts, and the
-- addresses of config/site.ts.
use solva.Prelude.{List, [], ◌∷◌}
use solva.Prelude.Text.{Text, codes, join}
use solva.Website.Contact.{OutgoingMessage}
use solva.Website.Contact.Schema.{ContactSubmission, WaitlistSubmission, role_name}

abbrev pub site_contact_email : Text
site_contact_email = codes "hello@joinsolva.xyz"

abbrev site_url : Text
site_url = codes "https://joinsolva.xyz"

-- `lines.join("\n")`.
abbrev pub join_lines : List Text → Text
join_lines [] = []
join_lines (line ∷ []) = line
join_lines (line ∷ next ∷ lines) = join (line ∷ (10 ∷ []) ∷ join_lines (next ∷ lines) ∷ [])

abbrev given_or_not : Text → Text
given_or_not [] = codes "Not given"
given_or_not (c ∷ s) = c ∷ s

unfoldable pub contact_message : ContactSubmission → OutgoingMessage
contact_message submission = record {
  to = site_contact_email;
  subject = join (
      codes "Contact: "
      ∷ submission.organisation
      ∷ codes " ("
      ∷ role_name submission.role
      ∷ codes ")"
      ∷ []);
  text = join_lines (
      join (codes "Name: " ∷ submission.name ∷ [])
      ∷ join (codes "Email: " ∷ submission.email ∷ [])
      ∷ join (codes "Organisation: " ∷ submission.organisation ∷ [])
      ∷ join (codes "Role: " ∷ role_name submission.role ∷ [])
      ∷ join (codes "Asset or product: " ∷ given_or_not submission.asset ∷ [])
      ∷ []
      ∷ submission.message
      ∷ []);
  reply_to = submission.email;
}

abbrev opens_first : Text
opens_first = join (
    codes "Publishing a coverage record opens to pilot partners first. "
    ∷ codes "We will write to this address when publishing opens to your organisation."
    ∷ [])

unfoldable pub waitlist_confirmation : WaitlistSubmission → OutgoingMessage
waitlist_confirmation submission = record {
  to = submission.email;
  subject = codes "You are on the Solva waitlist";
  text = join_lines (
      codes "Hello,"
      ∷ []
      ∷ join (codes "You are on the Solva waitlist for " ∷ submission.organisation ∷ codes "." ∷ [])
      ∷ []
      ∷ opens_first
      ∷ []
      ∷ codes "If you want to talk about a pilot sooner, reply to this email."
      ∷ []
      ∷ codes "The Solva team"
      ∷ site_url
      ∷ []);
  reply_to = site_contact_email;
}
