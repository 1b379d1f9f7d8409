-- ===== src/Website/Contact/Schema.antt =====
-- The fields of the forms and their validation: apps/website/src/features/contact/lib/schema.ts.
pub mod Bounds
use solva.Prelude.{
  ℕ, Bool, true, false, not, List, [], ◌∷◌, ◌++◌, Option, none, some, length, ltb, if◌then◌else◌,
}
use solva.Prelude.Text.{Text, codes, text_eq, is_truthy, is_space, trim, print_nat, join}
use solva.Website.Contact.{FieldValues, FieldErrors, FormData}

pub data Role : Type 0 where
  anchor custodial_app exchange wallet lending_pool auditor other : Role

abbrev pub role_name : Role → Text
role_name anchor = codes "Anchor"
role_name custodial_app = codes "Custodial app"
role_name exchange = codes "Exchange"
role_name wallet = codes "Wallet"
role_name lending_pool = codes "Lending pool"
role_name auditor = codes "Auditor"
role_name other = codes "Other"

abbrev pub roles : List Role
roles = anchor ∷ custodial_app ∷ exchange ∷ wallet ∷ lending_pool ∷ auditor ∷ other ∷ []

abbrev pub honeypot_field : Text
honeypot_field = codes "website"

-- `value.replace(/\s+/g, " ")`; the flag says that the unit before was white space.
unfoldable pub collapse : Bool → Text → Text
collapse after [] = []
collapse after (c ∷ s) =
    let in_space = collapse true s in
    let in_word = collapse false s in
    if is_space c then if after then in_space else 32 ∷ in_space else c ∷ in_word

unfoldable pub tidy : Text → Text
unfolding collapse
tidy value = trim (collapse false value)

-- `z.string()` behind its transformations: the value, and the issues of the checks in order.
pub record Checked : Type 0 where
  pub value : Text
  pub issues : List Text

unfoldable pub min_length : ℕ → Text → Text → List Text
min_length least message value = if ltb (length value) least then message ∷ [] else []

unfoldable pub max_length : ℕ → Text → Text → List Text
max_length most message value = if ltb most (length value) then message ∷ [] else []

abbrev keep_under : Text → Text
keep_under most = join (codes "Keep this under " ∷ most ∷ codes " characters." ∷ [])

unfoldable pub line : Text → ℕ → Text → Checked
unfolding min_length max_length
line missing most value =
    let tidied = tidy value in
    record {
      value = tidied;
      issues = min_length 1 missing tidied ++ max_length most (keep_under (print_nat most)) tidied;
    }

-- `is_email` is zod's test of an address.
unfoldable pub email_checks : (Text → Bool) → Text → Checked
unfolding min_length max_length
email_checks is_email value =
    let trimmed = trim value in
    record {
      value = trimmed;
      issues =
          min_length 1 (codes "Add your work email.") trimmed
          ++ max_length 320 (keep_under (codes "320")) trimmed
          ++ (if is_email trimmed
              then []
              else codes "Enter an email address like name@company.com." ∷ []);
    }

unfoldable pub find_role : List Role → Text → Option Role
find_role [] value = none
find_role (option ∷ options) value =
    if text_eq (role_name option) value then some option else find_role options value

unfoldable pub asset_checks : Text → Checked
unfolding max_length
asset_checks value =
    let tidied = tidy value in
    record { value = tidied; issues = max_length 120 (keep_under (codes "120")) tidied }

unfoldable pub message_checks : Text → Checked
unfolding min_length max_length
message_checks value =
    let trimmed = trim value in
    record {
      value = trimmed;
      issues =
          min_length 1 (codes "Tell us a little about what you need.") trimmed
          ++ max_length 5000 (keep_under (codes "5,000")) trimmed;
    }

pub data ContactField : Type 0 where
  contact_name contact_email contact_organisation contact_role contact_asset contact_message :
      ContactField

pub data WaitlistField : Type 0 where
  waitlist_email waitlist_organisation waitlist_role : WaitlistField

pub record ContactSubmission : Type 0 where
  pub name : Text
  pub email : Text
  pub organisation : Text
  pub role : Role
  pub asset : Text
  pub message : Text

pub record WaitlistSubmission : Type 0 where
  pub email : Text
  pub organisation : Text
  pub role : Role

abbrev pub contact_fields : List ContactField
contact_fields =
    contact_name ∷ contact_email ∷ contact_organisation ∷ contact_role ∷ contact_asset
    ∷ contact_message ∷ []

abbrev pub waitlist_fields : List WaitlistField
waitlist_fields = waitlist_email ∷ waitlist_organisation ∷ waitlist_role ∷ []

-- `safeParse`: the data, or the issues of each field, `flatten().fieldErrors`.
pub data Parse (F D : Type 0) : Type 0 where
  success : D → Parse F D
  failure : (F → List Text) → Parse F D

unfoldable pub no_issues : {F : Type 0} → List F → (F → List Text) → Bool
no_issues [] issues = true
no_issues (field ∷ fields) issues = elim (issues field) [
  | [] ↦ no_issues fields issues
  | message ∷ messages ↦ false
]

abbrev role_issues : Option Role → List Text
role_issues none = codes "Choose the option that fits you best." ∷ []
role_issues (some found) = []

abbrev name_checks : Text → Checked
name_checks value = line (codes "Add your name.") 120 value

abbrev organisation_checks : Text → Checked
organisation_checks value = line (codes "Add your organisation.") 160 value

unfoldable pub contact_issues : (Text → Bool) → FieldValues ContactField → ContactField → List Text
unfolding line email_checks find_role asset_checks message_checks
contact_issues is_email values contact_name = (name_checks (values contact_name)).issues
contact_issues is_email values contact_email = (email_checks is_email (values contact_email)).issues
contact_issues is_email values contact_organisation =
    (organisation_checks (values contact_organisation)).issues
contact_issues is_email values contact_role = role_issues (find_role roles (values contact_role))
contact_issues is_email values contact_asset = (asset_checks (values contact_asset)).issues
contact_issues is_email values contact_message = (message_checks (values contact_message)).issues

contact_of :
    (Text → Bool)
    → FieldValues ContactField
    → Option Role
    → Bool
    → Parse ContactField ContactSubmission
unfolding contact_issues
contact_of is_email values (some found) true = success (record {
  name = (name_checks (values contact_name)).value;
  email = (email_checks is_email (values contact_email)).value;
  organisation = (organisation_checks (values contact_organisation)).value;
  role = found;
  asset = (asset_checks (values contact_asset)).value;
  message = (message_checks (values contact_message)).value;
})
contact_of is_email values _ _ = failure (contact_issues is_email values)

-- `contactSchema.safeParse`.
unfoldable pub contact_schema :
    (Text → Bool) → FieldValues ContactField → Parse ContactField ContactSubmission
unfolding contact_of no_issues
contact_schema is_email values =
    contact_of is_email values (find_role roles (values contact_role))
      (no_issues contact_fields (contact_issues is_email values))

unfoldable pub waitlist_issues :
    (Text → Bool) → FieldValues WaitlistField → WaitlistField → List Text
unfolding line email_checks find_role
waitlist_issues is_email values waitlist_email =
    (email_checks is_email (values waitlist_email)).issues
waitlist_issues is_email values waitlist_organisation =
    (organisation_checks (values waitlist_organisation)).issues
waitlist_issues is_email values waitlist_role = role_issues (find_role roles (values waitlist_role))

waitlist_of :
    (Text → Bool)
    → FieldValues WaitlistField
    → Option Role
    → Bool
    → Parse WaitlistField WaitlistSubmission
unfolding waitlist_issues
waitlist_of is_email values (some found) true = success (record {
  email = (email_checks is_email (values waitlist_email)).value;
  organisation = (organisation_checks (values waitlist_organisation)).value;
  role = found;
})
waitlist_of is_email values _ _ = failure (waitlist_issues is_email values)

unfoldable pub waitlist_schema :
    (Text → Bool) → FieldValues WaitlistField → Parse WaitlistField WaitlistSubmission
unfolding waitlist_of no_issues
waitlist_schema is_email values =
    waitlist_of is_email values (find_role roles (values waitlist_role))
      (no_issues waitlist_fields (waitlist_issues is_email values))

-- The name under which the form sends a field.
abbrev pub contact_key : ContactField → Text
contact_key contact_name = codes "name"
contact_key contact_email = codes "email"
contact_key contact_organisation = codes "organisation"
contact_key contact_role = codes "role"
contact_key contact_asset = codes "asset"
contact_key contact_message = codes "message"

abbrev pub waitlist_key : WaitlistField → Text
waitlist_key waitlist_email = codes "email"
waitlist_key waitlist_organisation = codes "organisation"
waitlist_key waitlist_role = codes "role"

unfoldable pub read_fields : {F : Type 0} → (F → Text) → FormData → FieldValues F
read_fields key form_data field = elim (form_data (key field)) [ none ↦ [] | some value ↦ value ]

honey : Option Text → Bool
honey none = false
honey (some value) = is_truthy (trim value)

unfoldable pub is_bot : FormData → Bool
unfolding honey
is_bot form_data = honey (form_data honeypot_field)

pub data Validation (F D : Type 0) : Type 0 where
  valid : D → Validation F D
  rejected : FieldErrors F → FieldValues F → Validation F D

-- The first message of a field, where there is one that is not empty.
unfoldable pub first_message : List Text → Option Text
first_message [] = none
first_message (first ∷ messages) = if is_truthy first then some first else none

abbrev pub validation_of : {F D : Type 0} → FieldValues F → Parse F D → Validation F D
validation_of values (success found) = valid found
validation_of values (failure flattened) =
    rejected (λ field. first_message (flattened field)) values

unfoldable pub validate :
    {F D : Type 0} → (FieldValues F → Parse F D) → FieldValues F → Validation F D
unfolding first_message
validate schema values = validation_of values (schema values)
