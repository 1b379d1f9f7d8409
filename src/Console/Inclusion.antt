-- ===== src/Console/Inclusion.antt =====
-- The public page that answers a customer: apps/web/src/app/(public)/inclusion/inclusion-client.tsx,
-- with lib/mock/inclusion.ts behind it. Checks take the same time, so they are answered in the
-- order in which they were asked.
pub mod Answered
mod Examples
use solva.Prelude.{
  ◌≡◌, Bool, true, false, ◌||◌, not, List, [], ◌∷◌, ◌++◌, Option, none, some, if◌then◌else◌,
}
use solva.Prelude.Text.{Text, codes, text_eq, is_truthy, trim}
use solva.SharedTypes.{InclusionResult}

abbrev latest_proof_id : Text
latest_proof_id = codes "1042"

abbrev included : List Text
included = codes "acct_8842" ∷ codes "ref-1029" ∷ codes "cust_5567" ∷ []

abbrev pub example_reference : Text
example_reference = codes "acct_8842"

-- `Set.prototype.has`.
has : List Text → Text → Bool
has [] key = false
has (x ∷ xs) key = text_eq x key || has xs key

unfoldable pub check_inclusion : Text → InclusionResult
unfolding has
check_inclusion reference = record {
  included = has included (trim reference);
  proof_id = latest_proof_id;
}

pub data CheckState : Type 0 where
  idle checking done : CheckState

-- The component's state, and the checks that it awaits, the oldest first.
pub record Checker : Type 0 where
  pub reference : Text
  pub state : CheckState
  pub result : Option InclusionResult
  pub checked_ref : Text
  pub awaited : List Text

unfoldable pub opened : Checker
opened = record { reference = []; state = idle; result = none; checked_ref = []; awaited = [] }

unfoldable pub set_reference : Text → Checker → Checker
set_reference reference page = record page { reference = reference }

-- Up to the `await`.
unfoldable pub check : Text → Checker → Checker
check raw_ref page =
    let ref = trim raw_ref in
    if is_truthy ref
    then record page {
      state = checking;
      result = none;
      checked_ref = ref;
      awaited = page.awaited ++ ref ∷ [];
    }
    else page

-- Behind the `await`, for the oldest of the checks.
unfoldable pub answer_first : List Text → Checker → Checker
answer_first [] page = page
answer_first (ref ∷ later) page = record page {
  result = some (check_inclusion ref);
  state = done;
  awaited = later;
}

abbrev is_checking : CheckState → Bool
is_checking checking = true
is_checking _ = false

-- Whether the button of the form is disabled; that of the sample never is.
unfoldable pub submit_disabled : Checker → Bool
submit_disabled page = is_checking page.state || not (is_truthy (trim page.reference))

pub data View : Type 0 where
  blank how_it_works checking_card : View
  answer : (result : InclusionResult) (reference : Text) → View

unfoldable pub view_of : CheckState → Option InclusionResult → Checker → View
view_of idle result page = how_it_works
view_of checking result page = checking_card
view_of done none page = blank
view_of done (some result) page = answer result page.checked_ref

unfoldable pub result_area : Checker → View
unfolding view_of
result_area page = view_of page.state page.result page
