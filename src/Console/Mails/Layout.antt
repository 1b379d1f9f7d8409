-- ===== src/Console/Mails/Layout.antt =====
-- The parts that the mails of apps/web/src/lib/email/templates.ts are made of.
use solva.Prelude.{List, [], ◌∷◌, map, if◌then◌else◌}
use solva.Prelude.Text.{Text, codes, is_truthy, trim, join}
use solva.Console.Mails.Escape.{replace_all, esc}
use solva.Console.Mails.Style.{
  palette_ink, palette_text, palette_sec, palette_page, palette_card, palette_hair, palette_accent,
  palette_accent_deep, palette_on_accent, fonts_display, fonts_body, fonts_mono, support_email,
  MailSite,
}

paragraph_start : Text
paragraph_start = join (
    codes "<p style=\"margin:0 0 16px;font-family:"
    ∷ fonts_body
    ∷ codes ";font-size:15px;line-height:1.65;color:"
    ∷ palette_sec
    ∷ codes ";\">"
    ∷ [])

unfoldable pub paragraph_parts : Text → List Text
unfolding paragraph_start
paragraph_parts html = paragraph_start ∷ html ∷ codes "</p>" ∷ []

unfoldable pub paragraph : Text → Text
unfolding paragraph_parts
paragraph html = join (paragraph_parts html)

unfoldable pub bullet : Text → Text
bullet item = join (
    codes "<tr><td style=\"padding:0 0 10px;vertical-align:top;\"><span "
    ∷ codes "style=\"color:"
    ∷ palette_accent_deep
    ∷ codes ";font-weight:700;\">&bull;</span></td><td style=\"padding:0 0 10px "
    ∷ codes "10px;font-family:"
    ∷ fonts_body
    ∷ codes ";font-size:15px;line-height:1.6;color:"
    ∷ palette_sec
    ∷ codes ";\">"
    ∷ item
    ∷ codes "</td></tr>"
    ∷ [])

unfoldable pub bullet_list : List Text → Text
unfolding bullet
bullet_list items = join (
    codes "<table role=\"presentation\" cellpadding=\"0\" cellspacing=\"0\" "
    ∷ codes "style=\"width:100%;margin:0 0 18px;\">"
    ∷ (join (map bullet items))
    ∷ codes "</table>"
    ∷ [])

unfoldable pub button : Text → Text → Text
unfolding esc
button label href = join (
    codes "<table role=\"presentation\" cellpadding=\"0\" cellspacing=\"0\" "
    ∷ codes "style=\"margin:8px 0 4px;\"><tr><td "
    ∷ codes "style=\"border-radius:10px;background:"
    ∷ palette_accent
    ∷ codes ";\"><a href=\""
    ∷ href
    ∷ codes "\" style=\"display:inline-block;padding:13px 26px;font-family:"
    ∷ fonts_body
    ∷ codes ";font-size:15px;font-weight:700;color:"
    ∷ palette_on_accent
    ∷ codes ";text-decoration:none;border-radius:10px;\">"
    ∷ esc label
    ∷ codes "</a></td></tr></table>"
    ∷ [])

pub record Detail : Type 0 where
  pub label : Text
  pub value : Text

abbrev pub breaks : Text → Text
breaks s = replace_all 10 (codes "<br>") s

unfoldable pub details_row : Detail → Text
unfolding esc replace_all
details_row row = join (
    codes "<tr><td style=\"padding:9px 14px;border-bottom:1px solid "
    ∷ palette_hair
    ∷ codes ";font-family:"
    ∷ fonts_mono
    ∷ codes ";font-size:11px;letter-spacing:0.06em;text-transform:uppercase;color:"
    ∷ palette_sec
    ∷ codes ";white-space:nowrap;vertical-align:top;\">"
    ∷ esc row.label
    ∷ codes "</td><td style=\"padding:9px 14px;border-bottom:1px solid "
    ∷ palette_hair
    ∷ codes ";font-family:"
    ∷ fonts_body
    ∷ codes ";font-size:14px;color:"
    ∷ palette_text
    ∷ codes ";\">"
    ∷ breaks (esc row.value)
    ∷ codes "</td></tr>"
    ∷ [])

unfoldable pub filled : List Detail → List Detail
filled [] = []
filled (row ∷ rows) = if is_truthy (trim row.value) then row ∷ filled rows else filled rows

unfoldable pub details_table : List Detail → Text
unfolding details_row filled
details_table rows = join (
    codes "<table role=\"presentation\" cellpadding=\"0\" cellspacing=\"0\" "
    ∷ codes "style=\"width:100%;border:1px solid "
    ∷ palette_hair
    ∷ codes ";border-radius:10px;border-collapse:separate;overflow:hidden;margin:4p"
    ∷ codes "x 0 8px;\">"
    ∷ (join (map details_row (filled rows)))
    ∷ codes "</table>"
    ∷ [])

shell_head : Text
shell_head = join (
    codes "<!doctype html>\n"
    ∷ codes "<html lang=\"en\">\n"
    ∷ codes "<head>\n"
    ∷ codes "<meta charset=\"utf-8\">\n"
    ∷ codes "<meta name=\"viewport\" content=\"width=device-width, initial-scale=1\">\n"
    ∷ codes "<meta name=\"color-scheme\" content=\"light\">\n"
    ∷ codes "<link rel=\"preconnect\" href=\"https://fonts.googleapis.com\">\n"
    ∷ codes "<link href=\"https://fonts.googleapis.com/css2?family=Bricolage+Grotesq"
    ∷ codes "ue:wght@600;700&family=Hanken+Grotesk:wght@400;500;600&family=IBM+Plex"
    ∷ codes "+Mono&display=swap\" rel=\"stylesheet\">\n"
    ∷ codes "<style>@media only screen and "
    ∷ codes "(max-width:600px){.sv-outer{padding-left:0!important;padding-right:0!i"
    ∷ codes "mportant;}.sv-card{border-radius:0!important;}.sv-pad{padding-left:24p"
    ∷ codes "x!important;padding-right:24px!important;}}</style>\n"
    ∷ codes "<title>"
    ∷ [])

shell_open : Text
shell_open = join (
    codes "</title>\n"
    ∷ codes "</head>\n"
    ∷ codes "<body style=\"margin:0;padding:0;background:"
    ∷ palette_page
    ∷ codes ";\">\n"
    ∷ codes "<span style=\"display:none;max-height:0;overflow:hidden;opacity:0;color"
    ∷ codes ":"
    ∷ palette_page
    ∷ codes ";\">"
    ∷ [])

module _ (mail : MailSite) where
  banner : Text
  banner = join (
      codes "</span>\n"
      ∷ codes "<table role=\"presentation\" cellpadding=\"0\" cellspacing=\"0\" "
      ∷ codes "style=\"width:100%;background:"
      ∷ palette_page
      ∷ codes ";\">\n"
      ∷ codes "<tr><td align=\"center\" class=\"sv-outer\" style=\"padding:32px 16px;\">\n"
      ∷ codes "<table role=\"presentation\" cellpadding=\"0\" cellspacing=\"0\" "
      ∷ codes "class=\"sv-card\" style=\"width:100%;max-width:600px;background:"
      ∷ palette_card
      ∷ codes ";border-radius:16px;overflow:hidden;\">\n"
      ∷ codes "  <tr><td style=\"font-size:0;line-height:0;background:"
      ∷ palette_ink
      ∷ codes ";\">\n"
      ∷ codes "    <img src=\""
      ∷ mail.banner_url
      ∷ codes "\" width=\"600\" height=\"200\" alt=\"Solva. Prove solvency. Privately.\" "
      ∷ codes "style=\"display:block;width:100%;max-width:600px;height:auto;border:0;\""
      ∷ codes ">\n"
      ∷ codes "  </td></tr>\n"
      ∷ codes "  <tr><td style=\"height:3px;background:"
      ∷ palette_accent
      ∷ codes ";font-size:0;line-height:0;\">&nbsp;</td></tr>\n"
      ∷ codes "  <tr><td class=\"sv-pad\" style=\"padding:34px 32px 8px;\">\n"
      ∷ codes "    <h1 style=\"margin:0 0 18px;font-family:"
      ∷ fonts_display
      ∷ codes ";font-size:23px;line-height:1.25;font-weight:700;letter-spacing:-0.02e"
      ∷ codes "m;color:"
      ∷ palette_text
      ∷ codes ";\">"
      ∷ [])

  footer : Text
  footer = join (
      codes "\n"
      ∷ codes "  </td></tr>\n"
      ∷ codes "  <tr><td class=\"sv-pad\" style=\"padding:22px 32px 30px;\">\n"
      ∷ codes "    <table role=\"presentation\" cellpadding=\"0\" cellspacing=\"0\" "
      ∷ codes "style=\"width:100%;border-top:1px solid "
      ∷ palette_hair
      ∷ codes ";\">\n"
      ∷ codes "      <tr><td style=\"padding-top:18px;font-family:"
      ∷ fonts_body
      ∷ codes ";font-size:12.5px;line-height:1.6;color:"
      ∷ palette_sec
      ∷ codes ";\">\n"
      ∷ codes "        <strong style=\"color:"
      ∷ palette_text
      ∷ codes ";\">Solva</strong> &middot; Zero-knowledge proof of reserves<br>\n"
      ∷ codes "        Questions? Reach a real person at <a href=\"mailto:"
      ∷ support_email
      ∷ codes "\" style=\"color:"
      ∷ palette_accent_deep
      ∷ codes ";text-decoration:none;font-weight:600;\">"
      ∷ support_email
      ∷ codes "</a><br>\n"
      ∷ codes "        <a href=\""
      ∷ mail.site_url
      ∷ codes "\" style=\"color:"
      ∷ palette_sec
      ∷ codes ";text-decoration:underline;\">joinsolva.xyz</a>\n"
      ∷ codes "      </td></tr>\n"
      ∷ codes "    </table>\n"
      ∷ codes "  </td></tr>\n"
      ∷ codes "</table>\n"
      ∷ codes "</td></tr>\n"
      ∷ codes "</table>\n"
      ∷ codes "</body>\n"
      ∷ codes "</html>"
      ∷ [])

  unfoldable pub shell_parts : Text → Text → Text → List Text
  unfolding shell_head shell_open banner footer
  shell_parts preheader heading body =
      shell_head
      ∷ esc heading
      ∷ shell_open
      ∷ esc preheader
      ∷ banner
      ∷ heading
      ∷ codes "</h1>\n"
      ∷ codes "    "
      ∷ body
      ∷ footer
      ∷ []

  unfoldable pub shell : Text → Text → Text → Text
  unfolding shell_parts
  shell preheader heading body = join (shell_parts preheader heading body)
