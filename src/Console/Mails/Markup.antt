-- ===== src/Console/Mails/Markup.antt =====
-- What a submission can do to the markup of the mails of apps/web/src/lib/email/templates.ts.
use solva.Prelude.{
  ℕ, ◌≡◌, refl, sym, ap, ◌∙◌, Bool, ◌||◌, List, [], ◌∷◌, ◌++◌, Bool-cases, ◌==◌, if◌then◌else◌,
  arith, inl, inr,
}
use mathlib.Core.List.{append_assoc}
use mathlib.Core.Path.{ap₂}
use solva.Prelude.Text.{Text, codes, keep, join}
use solva.Console.Mails.Escape.{replace_all, esc, first_name_of}
use solva.Console.Mails.Style.{MailSite}
use solva.Console.Mails.Layout.{paragraph, paragraph_parts, shell, shell_parts}
use solva.Console.Mails.Templates.{
  KybSubmission, received_body, approved_body, received_parts, approved_parts, received_line,
  approved_line, received_heading, approved_heading, received_preheader, approved_preheader,
  kyb_received, kyb_approved,
}

-- The units that open and close tags and quote attributes.
abbrev pub is_markup : ℕ → Bool
is_markup c = c == b'<' || c == b'>' || c == b'"'

-- One unit escaped.
escape_unit : ℕ → Text
escape_unit c =
    if c == b'&'
    then codes "&amp;"
    else (if c == b'<'
        then codes "&lt;"
        else (if c == b'>' then codes "&gt;" else (if c == b'"' then codes "&quot;" else c ∷ [])))

replace_all-append :
    (c : ℕ) (by s t : Text) → replace_all c by (s ++ t) ≡ replace_all c by s ++ replace_all c by t
unfolding replace_all
replace_all-append c by [] t = refl
replace_all-append c by (d ∷ s) t = simp (replace_all-append c by s t, append_assoc)

-- The four replacements in a row are one of each unit.
esc-cons : (c : ℕ) (s : Text) → esc (c ∷ s) ≡ escape_unit c ++ esc s
unfolding esc replace_all escape_unit
esc-cons c s = elim (Bool-cases (c == b'&')) [
  | inl amp ↦ rw amp refl
  | inr plain ↦ elim (Bool-cases (c == b'<')) [
    | inl opens ↦ rw (plain, opens) refl
    | inr inner ↦ elim (Bool-cases (c == b'>')) [
      | inl closes ↦ rw (plain, inner, closes) refl
      | inr text ↦ elim (Bool-cases (c == b'"')) [
        | inl quotes ↦ rw (plain, inner, text, quotes) refl
        | inr other ↦ rw (plain, inner, text, other) refl
      ]
    ]
  ]
]

keep-append : (p : ℕ → Bool) (s t : Text) → keep p (s ++ t) ≡ keep p s ++ keep p t
unfolding keep
keep-append p [] t = refl
keep-append p (c ∷ s) t = elim (Bool-cases (p c)) [
  | inl kept ↦ rw kept (ap (λ r. c ∷ r) (keep-append p s t))
  | inr gone ↦ rw gone (keep-append p s t)
]

escape_unit-plain : (c : ℕ) → keep is_markup (escape_unit c) ≡ []
unfolding escape_unit keep
escape_unit-plain c = ground arith

keep-esc-nil : keep is_markup (esc []) ≡ []
unfolding esc replace_all keep
keep-esc-nil = refl

-- Escaped text holds no markup.
keep-esc : (s : Text) → keep is_markup (esc s) ≡ []
keep-esc [] = keep-esc-nil
keep-esc (c ∷ s) = rw (esc-cons, keep-append, escape_unit-plain) (keep-esc s)

-- Two texts with the same markup, unit by unit.
abbrev pub Alike : Text → Text → Type 0
Alike s t = keep is_markup s ≡ keep is_markup t

Alike-esc : (s t : Text) → Alike (esc s) (esc t)
Alike-esc s t = keep-esc s ∙ sym (keep-esc t)

abbrev AllAlike : List Text → List Text → Type 0
AllAlike [] [] = Unit {0}
AllAlike [] (t ∷ ts) = ⊥
AllAlike (s ∷ ss) [] = ⊥
AllAlike (s ∷ ss) (t ∷ ts) = Alike s t × AllAlike ss ts

Alike-join : (ss ts : List Text) → AllAlike ss ts → Alike (join ss) (join ts)
Alike-join [] [] h = refl
Alike-join [] (t ∷ ts) h = absurd h
Alike-join (s ∷ ss) [] h = absurd h
Alike-join (s ∷ ss) (t ∷ ts) h =
    keep-append is_markup s (join ss)
    ∙ ap₂ ◌++◌ h.0 (Alike-join ss ts h.1)
    ∙ sym (keep-append is_markup t (join ts))

Alike-paragraph : (s t : Text) → Alike s t → Alike (paragraph s) (paragraph t)
unfolding paragraph paragraph_parts
Alike-paragraph s t h = Alike-join (paragraph_parts s) (paragraph_parts t) (refl, (h, (refl, tt)))

Alike-received_line :
    (s t : Text) → Alike s t → Alike (join (received_line s)) (join (received_line t))
unfolding received_line
Alike-received_line s t h =
    Alike-join (received_line s) (received_line t) (refl, (refl, (refl, (h, (refl, tt)))))

Alike-approved_line :
    (s t : Text) → Alike s t → Alike (join (approved_line s)) (join (approved_line t))
unfolding approved_line
Alike-approved_line s t h =
    Alike-join (approved_line s) (approved_line t) (refl, (refl, (refl, (h, (refl, tt)))))

Alike-received_body : (s t : Text) → Alike s t → Alike (received_body s) (received_body t)
unfolding received_body received_parts
Alike-received_body s t h = Alike-join (received_parts s) (received_parts t) (
  Alike-paragraph (join (received_line s)) (join (received_line t)) (Alike-received_line s t h),
  (refl, (refl, (refl, (refl, tt)))),
)

Alike-approved_body :
    (url s t : Text) → Alike s t → Alike (approved_body url s) (approved_body url t)
unfolding approved_body approved_parts
Alike-approved_body url s t h = Alike-join (approved_parts url s) (approved_parts url t) (
  Alike-paragraph (join (approved_line s)) (join (approved_line t)) (Alike-approved_line s t h),
  (refl, (refl, (refl, tt))),
)

Alike-shell :
    (mail : MailSite) (preheader s t body body' : Text)
    → Alike s t
    → Alike body body'
    → Alike (shell mail preheader s body) (shell mail preheader t body')
unfolding shell shell_parts
Alike-shell mail preheader s t body body' h k =
    Alike-join (shell_parts mail preheader s body) (shell_parts mail preheader t body')
      (refl, (Alike-esc s t, (refl, (refl, (refl, (h, (refl, (refl, (k, (refl, tt))))))))))

Alike-first_name : (s t : Text) → Alike (first_name_of s) (first_name_of t)
unfolding first_name_of
Alike-first_name s t = Alike-esc _ _

Alike-received_heading :
    (s t : Text) → Alike s t → Alike (join (received_heading s)) (join (received_heading t))
unfolding received_heading
Alike-received_heading s t h =
    Alike-join (received_heading s) (received_heading t) (refl, (h, (refl, tt)))

Alike-approved_heading :
    (s t : Text) → Alike s t → Alike (join (approved_heading s)) (join (approved_heading t))
unfolding approved_heading
Alike-approved_heading s t h =
    Alike-join (approved_heading s) (approved_heading t) (refl, (h, (refl, tt)))

-- The tags and the quotes of the two mails to an institution are the same whatever was submitted,
-- in their number and order: no name can open a tag or end an attribute.
pub mails-Alike :
    (mail : MailSite) (a b : KybSubmission)
    → Alike (kyb_received mail a).html (kyb_received mail b).html
      × Alike (kyb_approved mail a).html (kyb_approved mail b).html
unfolding kyb_received kyb_approved
mails-Alike mail a b = (
  Alike-shell mail received_preheader _ _ _ _
      (Alike-received_heading _ _ (Alike-first_name a.contact_name b.contact_name))
      (Alike-received_body _ _ (Alike-esc a.legal_name b.legal_name)),
  Alike-shell mail approved_preheader _ _ _ _
      (Alike-approved_heading _ _ (Alike-first_name a.contact_name b.contact_name))
      (Alike-approved_body mail.app_url _ _ (Alike-esc a.legal_name b.legal_name)),
)
