-- ===== src/Website/Inclusion.antt =====
-- apps/website/src/features/solutions/lib/inclusion.ts: a customer's check of a snapshot.
-- `toUpperCase` is a parameter.
pub mod Counted
mod Query
mod Examples
use solva.Prelude.{
  ℕ, ◌+◌, Bool, true, false, ◌&&◌, not, List, [], ◌∷◌, ◌++◌, Option, none, some, leb, ◌==◌,
  if◌then◌else◌, length, take, drop,
}
use solva.Prelude.Int.{ℤ}
use solva.Prelude.Text.{Text, codes, text_eq, is_digit, is_space, all_of, keep, trim}

pub record CustomerLeaf : Type 0 where
  pub reference : Text
  pub balance : ℤ

pub record InclusionSnapshot : Type 0 where
  pub institution : Text
  pub asset : Text
  pub decimals : ℕ
  pub total : ℤ
  pub ledger : ℕ
  pub customers : List CustomerLeaf

pub data InclusionResult : Type 0 where
  idle : InclusionResult
  invalid : (input : Text) → InclusionResult
  not_found : (reference : Text) → InclusionResult
  counted : (reference : Text) → (balance total : ℤ) → (ledger : ℕ) → InclusionResult

abbrev is_capital : ℕ → Bool
is_capital c = leb b'A' c && leb c b'Z'

-- `/^[A-Z]{3}\d{4}$/`.
unfoldable pub is_compact : Text → Bool
is_compact s = (length s == 7) && all_of is_capital (take 3 s) && all_of is_digit (drop 3 s)

-- `/^[A-Z]{3}-\d{4}$/`.
unfoldable pub is_reference : Text → Bool
is_reference s =
    (length s == 8)
    && all_of is_capital (take 3 s)
    && text_eq (take 1 (drop 3 s)) (codes "-")
    && all_of is_digit (drop 4 s)

unfoldable pub with_dash : Text → Text
unfolding is_compact
with_dash compact = if is_compact compact then take 3 compact ++ b'-' ∷ drop 3 compact else compact

accepted : Text → Option Text
unfolding is_reference
accepted reference = if is_reference reference then some reference else none

unfoldable pub normalize_reference : (Text → Text) → Text → Option Text
unfolding with_dash accepted
normalize_reference to_upper_case input =
    accepted (with_dash (keep (λ c. not (is_space c)) (to_upper_case (trim input))))

-- `customers.find`.
unfoldable pub find_leaf : Text → List CustomerLeaf → Option CustomerLeaf
find_leaf reference [] = none
find_leaf reference (leaf ∷ leaves) =
    if text_eq leaf.reference reference then some leaf else find_leaf reference leaves

unfoldable pub leaf_result : Text → InclusionSnapshot → Option CustomerLeaf → InclusionResult
leaf_result reference snapshot none = not_found reference
leaf_result reference snapshot (some leaf) =
    counted reference leaf.balance snapshot.total snapshot.ledger

unfoldable pub reference_result : Text → InclusionSnapshot → Option Text → InclusionResult
unfolding leaf_result find_leaf
reference_result input snapshot none = invalid input
reference_result input snapshot (some reference) =
    leaf_result reference snapshot (find_leaf reference snapshot.customers)

unfoldable pub check_inclusion : (Text → Text) → Text → InclusionSnapshot → InclusionResult
unfolding reference_result normalize_reference
check_inclusion to_upper_case input snapshot =
    reference_result input snapshot (normalize_reference to_upper_case input)
