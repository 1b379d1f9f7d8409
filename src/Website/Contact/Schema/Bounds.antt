-- ===== src/Website/Contact/Schema/Bounds.antt =====
-- What data that passed the validation are: apps/website/src/features/contact/lib/schema.ts.
use solva.Prelude.{
  ℕ, ◌≤◌, ◌≡◌, refl, Bool, true, false, List, [], ◌∷◌, ◌++◌, Option, none, some, length, ltb,
  if◌then◌else◌, arith, All,
}
use solva.Prelude.Text.{Text, trim}
use mathlib.Core.Path.{subst}
use solva.Website.Contact.{FieldValues}
use solva.Website.Contact.Schema.{
  Role, roles, find_role, tidy, min_length, max_length, line, email_checks, asset_checks,
  message_checks, ContactField, contact_name, contact_email, contact_organisation, contact_role,
  contact_asset, contact_message, contact_fields, ContactSubmission, Parse, success, failure,
  no_issues, contact_issues, contact_of, contact_schema,
}

if-append :
    (b : Bool) (message : Text) (more : List Text)
    → (if b then message ∷ [] else []) ++ more ≡ []
    → (b ≡ false) × (more ≡ [])
if-append true message more h = cc
if-append false message more h = (refl, h)

append-nil : (xs ys : List Text) → xs ++ ys ≡ [] → (xs ≡ []) × (ys ≡ [])
append-nil [] ys h = (refl, h)
append-nil (x ∷ xs) ys h = cc

if-single : (b : Bool) (message : Text) → (if b then message ∷ [] else []) ≡ [] → b ≡ false
if-single true message h = cc
if-single false message h = refl

-- A text of `least` to `most` units.
HasLength : ℕ → ℕ → Text → Type 0
HasLength least most value = (least ≤ length value) × (length value ≤ most)

line-HasLength :
    (missing : Text) (most : ℕ) (value : Text)
    → (line missing most value).issues ≡ []
    → HasLength 1 most (line missing most value).value
unfolding line min_length max_length HasLength
line-HasLength missing most value h =
    let (filled, fits) = if-append (ltb (length (tidy value)) 1) missing _ h in
    let small = if-single (ltb most (length (tidy value))) _ fits in (ground arith, ground arith)

asset_checks-HasLength :
    (value : Text) → (asset_checks value).issues ≡ [] → HasLength 0 120 (asset_checks value).value
unfolding asset_checks max_length HasLength
asset_checks-HasLength value h =
    let small = if-single (ltb 120 (length (tidy value))) _ h in (omega arith, ground arith)

message_checks-HasLength :
    (value : Text)
    → (message_checks value).issues ≡ []
    → HasLength 1 5000 (message_checks value).value
unfolding message_checks min_length max_length HasLength
message_checks-HasLength value h =
    let (filled, fits) = if-append (ltb (length (trim value)) 1) _ _ h in
    let small = if-single (ltb 5000 (length (trim value))) _ fits in (ground arith, ground arith)

not_else : (b : Bool) (message : Text) → (if b then [] else message ∷ []) ≡ [] → b ≡ true
not_else true message h = refl
not_else false message h = cc

email_checks-HasLength :
    (is_email : Text → Bool) (value : Text)
    → (email_checks is_email value).issues ≡ []
    → HasLength 1 320 (email_checks is_email value).value
      × (is_email (email_checks is_email value).value ≡ true)
unfolding email_checks min_length max_length HasLength
email_checks-HasLength is_email value h =
    let (sized, formed) = append-nil _ _ h in
    let (filled, fits) = if-append (ltb (length (trim value)) 1) _ _ sized in
    let small = if-single (ltb 320 (length (trim value))) _ fits in
    ((ground arith, ground arith), not_else _ _ formed)

no_issues-All :
    {F : Type 0} (fields : List F) (issues : F → List Text)
    → no_issues fields issues ≡ true
    → All (λ field. issues field ≡ []) fields
unfolding no_issues
no_issues-All [] issues h = tt
no_issues-All (field ∷ fields) issues h =
    elim (issues field)
        as (λ found.
          elim found [ [] ↦ no_issues fields issues | _ ∷ _ ↦ false ] ≡ true
          → (found ≡ []) × All (λ f. issues f ≡ []) fields) [
            | [] ↦ λ k. (refl, no_issues-All fields issues k)
            | message ∷ messages ↦ λ k. cc
          ]
      h

pub IsBounded : (Text → Bool) → ContactSubmission → Type 0
IsBounded is_email submission =
    HasLength 1 120 submission.name
    × (HasLength 1 320 submission.email × (is_email submission.email ≡ true))
    × HasLength 1 160 submission.organisation
    × HasLength 0 120 submission.asset
    × HasLength 1 5000 submission.message

-- What holds of the data, where there are some.
Held : {F D : Type 0} → (D → Type 0) → Parse F D → Type 0
Held p (success found) = p found
Held p (failure issues) = Unit

contact_of-Held :
    (is_email : Text → Bool) (values : FieldValues ContactField) (found : Option Role)
    (clean : Bool)
    → (clean ≡ true → All (λ field. contact_issues is_email values field ≡ []) contact_fields)
    → Held (IsBounded is_email) (contact_of is_email values found clean)
unfolding contact_of Held IsBounded contact_issues
contact_of-Held is_email values none clean all = tt
contact_of-Held is_email values (some chosen) false all = tt
contact_of-Held is_email values (some chosen) true all =
    let (named, (addressed, (of, (known, (asset, (message, end)))))) = all refl in
    (
      line-HasLength _ 120 (values contact_name) named,
      email_checks-HasLength is_email (values contact_email) addressed,
      line-HasLength _ 160 (values contact_organisation) of,
      asset_checks-HasLength (values contact_asset) asset,
      message_checks-HasLength (values contact_message) message,
    )

-- Data that `contactSchema` accepts have a name of 1 to 120 units, a mail address of at most 320
-- that passes the test for one, an organisation of 1 to 160, an asset of at most 120 and a
-- message of 1 to 5000.
pub contact_schema-IsBounded :
    (is_email : Text → Bool) (values : FieldValues ContactField) (submission : ContactSubmission)
    → contact_schema is_email values ≡ success submission
    → IsBounded is_email submission
unfolding contact_schema Held
contact_schema-IsBounded is_email values submission h = subst (Held (IsBounded is_email)) h (
    contact_of-Held is_email values (find_role roles (values contact_role)) _
      (no_issues-All contact_fields (λ field. contact_issues is_email values field)))
