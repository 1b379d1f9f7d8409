-- ===== src/Website/Blog/Examples.antt =====
-- A date, a month that is none, and a text of two words.
use solva.Prelude.{◌≡◌, refl, false}
use solva.Prelude.Text.{codes, text_eq, all_of, value, print_nat, digits}
use solva.Prelude.Effect.{ok, err}
use solva.Website.Blog.{format_post_date, is_iso_date, month_name, dated, words_from}

shown : format_post_date (codes "2026-11-04") ≡ ok (codes "4 November 2026")
unfolding format_post_date is_iso_date month_name dated text_eq all_of value print_nat digits
shown = refl

thirteenth : format_post_date (codes "2026-13-04") ≡ err (codes "Not a month: 2026-13-04")
unfolding format_post_date is_iso_date month_name dated text_eq all_of value
thirteenth = refl

two_words : words_from false (codes "two  words") ≡ 2
unfolding words_from
two_words = refl
