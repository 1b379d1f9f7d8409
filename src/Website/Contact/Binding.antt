-- ===== src/Website/Contact/Binding.antt =====
-- What a field of a form shows: apps/website/src/features/contact/hooks/use-submission.ts. The
-- state and whether it is pending come from `useActionState`, and the identifier from `useId`.
use solva.Prelude.{ℕ, zero, suc, Bool, false, List, [], ◌∷◌, Option, none, some, if◌then◌else◌}
use solva.Prelude.Text.{Text, codes, is_truthy, join}
use solva.Website.Contact.{FieldErrors, SubmissionState, idle, invalid, failed, sent}

pub record FieldBinding (F : Type 0) : Type 0 where
  pub id : Text
  pub name : F
  pub error_id : Text
  pub error : Option Text
  pub default_value : Text
  pub aria_invalid : Bool
  pub aria_described_by : Option Text

or_empty : Option Text → Text
or_empty none = []
or_empty (some value) = value

has_error : Option Text → Bool
has_error none = false
has_error (some message) = is_truthy message

module _ {F : Type 0} where
  -- A missing value of `initialValues` is none.
  unfoldable pub shown_values : SubmissionState F → (F → Option Text) → F → Option Text
  shown_values (invalid errors values) initial field = some (values field)
  shown_values (failed reason values) initial field = some (values field)
  shown_values idle initial field = initial field
  shown_values (sent address) initial field = initial field

  unfoldable pub shown_errors : SubmissionState F → FieldErrors F
  shown_errors (invalid errors values) field = errors field
  shown_errors (failed reason values) field = none
  shown_errors idle field = none
  shown_errors (sent address) field = none

  unfoldable pub error_count : List F → FieldErrors F → ℕ
  error_count [] errors = zero
  error_count (field ∷ fields) errors = elim (errors field) [
    | none ↦ error_count fields errors
    | some message ↦ suc (error_count fields errors)
  ]

  unfoldable pub field_binding :
      Text → (F → Text) → SubmissionState F → (F → Option Text) → F → FieldBinding F
  unfolding or_empty has_error
  field_binding base_id key state initial field =
      let id = join (base_id ∷ codes "-" ∷ key field ∷ []) in
      let error_id = join (id ∷ codes "-error" ∷ []) in
      let error = shown_errors state field in
      record {
        id = id;
        name = field;
        error_id = error_id;
        error = error;
        default_value = or_empty (shown_values state initial field);
        aria_invalid = has_error error;
        aria_described_by = if has_error error then some error_id else none;
      }
