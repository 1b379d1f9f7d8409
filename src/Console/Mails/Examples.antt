-- ===== src/Console/Mails/Examples.antt =====
-- A submission whose names hold markup.
use solva.Prelude.{◌≡◌, refl, none}
use solva.Prelude.Text.{Text, codes, trim, trim_start}
use solva.Console.Mails.Escape.{replace_all, esc, first_name_of}
use solva.Console.Mails.Style.{MailSite}
use solva.Console.Mails.Templates.{KybSubmission, kyb_received, kyb_approved}
use solva.Console.Mails.Markup.{Alike, mails-Alike}

abbrev site : MailSite
site = record {
  site_url = codes "https://joinsolva.xyz";
  app_url = codes "https://app.joinsolva.xyz";
  banner_url = codes "https://joinsolva.xyz/email/solva-email-banner-600x200-2x.png";
}

abbrev submission : Text → Text → KybSubmission
submission legal_name contact_name = record {
  legal_name = legal_name;
  contact_name = contact_name;
  contact_email = codes "a@b.co";
  type = none;
  institution = none;
  jurisdiction = none;
  registration_number = none;
}

abbrev hostile : KybSubmission
hostile = submission (codes "<script>") (codes "\"><b> Eve")

abbrev plain : KybSubmission
plain = submission (codes "Kestrel") (codes "Ann Lee")

name_escaped : first_name_of (codes "\"><b> Eve") ≡ codes "&quot;&gt;&lt;b&gt;"
unfolding first_name_of esc replace_all trim trim_start
name_escaped = refl

twice_escaped : esc (esc (codes "O&Co")) ≡ codes "O&amp;amp;Co"
unfolding esc replace_all
twice_escaped = refl

mails-Alike_example :
    Alike (kyb_received site hostile).html (kyb_received site plain).html
    × Alike (kyb_approved site hostile).html (kyb_approved site plain).html
mails-Alike_example = mails-Alike site hostile plain
