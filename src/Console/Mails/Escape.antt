-- ===== src/Console/Mails/Escape.antt =====
-- How text is put into markup: `esc` and `firstNameOf` of apps/web/src/lib/email/templates.ts.
use solva.Prelude.{ℕ, [], ◌∷◌, ◌++◌, ◌==◌, if◌then◌else◌}
use solva.Prelude.Text.{Text, codes, is_space, trim}

-- `replace(/c/g, …)`.
unfoldable pub replace_all : ℕ → Text → Text → Text
replace_all c by [] = []
replace_all c by (d ∷ s) = (if d == c then by else d ∷ []) ++ replace_all c by s

unfoldable pub esc : Text → Text
unfolding replace_all
esc value = replace_all b'"' (codes "&quot;") (
    replace_all b'>' (codes "&gt;")
      (replace_all b'<' (codes "&lt;") (replace_all b'&' (codes "&amp;") value)))

-- What `split(/\s+/)` gives first.
first_word : Text → Text
first_word [] = []
first_word (c ∷ s) = if is_space c then [] else c ∷ first_word s

unfoldable pub first_name_of : Text → Text
unfolding first_word
first_name_of name = esc (first_word (trim name))
