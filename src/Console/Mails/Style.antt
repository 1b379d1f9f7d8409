-- ===== src/Console/Mails/Style.antt =====
-- The colours, fonts and addresses of the mails: apps/web/src/lib/email/config.ts.
use solva.Prelude.Text.{Text, codes}

abbrev pub palette_ink : Text
palette_ink = codes "#0a0c06"

abbrev pub palette_text : Text
palette_text = codes "#0b0d07"

abbrev pub palette_sec : Text
palette_sec = codes "#51564b"

abbrev pub palette_page : Text
palette_page = codes "#eceee3"

abbrev pub palette_card : Text
palette_card = codes "#ffffff"

abbrev pub palette_hair : Text
palette_hair = codes "#e3e4db"

abbrev pub palette_accent : Text
palette_accent = codes "#cfe524"

abbrev pub palette_accent_deep : Text
palette_accent_deep = codes "#6e7a12"

abbrev pub palette_on_accent : Text
palette_on_accent = codes "#0a0c06"

abbrev pub fonts_display : Text
fonts_display = codes "'Bricolage Grotesque', 'Helvetica Neue', Arial, sans-serif"

abbrev pub fonts_body : Text
fonts_body = codes "'Hanken Grotesk', 'Helvetica Neue', Arial, sans-serif"

abbrev pub fonts_mono : Text
fonts_mono = codes "'IBM Plex Mono', ui-monospace, 'SFMono-Regular', Menlo, monospace"

abbrev pub support_email : Text
support_email = codes "support@joinsolva.xyz"

-- `SITE_URL`, `APP_URL` and `BANNER_URL`.
pub record MailSite : Type 0 where
  pub site_url : Text
  pub app_url : Text
  pub banner_url : Text
