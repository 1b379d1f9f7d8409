-- ===== src/Console/Verify/Sheet.antt =====
-- What the page of verify-client.tsx shows of its state, and the figures of a proof on it.
use solva.Prelude.{
  ℕ, ◌+◌, ◌/◌, Bool, true, false, List, [], ◌∷◌, ◌++◌, Option, none, some, if◌then◌else◌, not, ◌||◌,
  arith,
}
use solva.Prelude.Int.{ℤ, pos, negsuc, ◌*ℤ◌, ◌≤ℤ◌, quot, leb_ℤ, negate}
use solva.Prelude.BigInt.{parse_bigint, print_bigint}
use solva.Prelude.Text.{Text, codes, is_truthy, trim, join}
use solva.SharedTypes.{Proof}
use solva.Console.Format.{
  format_amount, margin_bps, format_relative_time, truncate_middle, format_timestamp,
  format_bps_percent,
}
use solva.Console.Verify.{Page, LookupState, loading, found, not_found, ClientCheck}

pub data View : Type 0 where
  blank trust_points skeleton : View
  no_proof : (id : Text) → View
  sheet : (proof : Proof) (check : ClientCheck) → View

unfoldable pub view_of : LookupState → Option Proof → Page → View
view_of LookupState.idle proof page = trust_points
view_of loading proof page = skeleton
view_of not_found proof page = no_proof page.missed_id
view_of found none page = blank
view_of found (some proof) page = sheet proof page.check

unfoldable pub result_area : Page → View
unfolding view_of
result_area page = view_of page.state page.proof page

abbrev is_loading : LookupState → Bool
is_loading loading = true
is_loading _ = false

-- Whether the button of the form is disabled.
unfoldable pub submit_disabled : Page → Bool
submit_disabled page = is_loading page.state || not (is_truthy (trim page.query))

-- `Math.round(Number(n) / 10)`, a half rounded up.
abbrev round_tenth : ℤ → ℤ
round_tenth (pos n) = pos ((n + 5) / 10)
round_tenth (negsuc n) = negate (pos ((n + 5) / 10))

abbrev at_most_hundred : ℤ → ℤ
at_most_hundred n = if leb_ℤ (pos 100) n then pos 100 else n

percent_of : Option ℤ → Option ℤ → ℤ
percent_of (some r) (some l) =
    if leb_ℤ r (pos 0) then pos 0 else at_most_hundred (round_tenth (quot (l *ℤ pos 1000) r))
percent_of _ _ = pos 0

unfoldable pub coverage_percent : Text → Text → ℤ
unfolding percent_of
coverage_percent reserves liabilities =
    percent_of (parse_bigint reserves) (parse_bigint liabilities)

-- The texts of a proof's sheet, from its head to the bytes. `to_locale` and `to_fixed` print a date
-- and a fraction.
module _ (to_locale : ℕ → Text) (to_fixed : ℤ → ℕ → Text) (now : ℕ) where
  unfoldable pub sheet_texts : Proof → List Text
  sheet_texts proof =
      let inputs = proof.public_inputs in
      let bps = margin_bps inputs.reserves_total inputs.liabilities_total in
      let coverage =
        print_bigint (coverage_percent inputs.reserves_total inputs.liabilities_total) in
      codes "Solvent"
      ∷ (codes "Proof #" ++ proof.id)
      ∷ (codes "Verified on Stellar · " ++ format_relative_time now proof.published_at)
      ∷ format_amount inputs.reserves_total
      ∷ format_amount inputs.liabilities_total
      ∷ join (codes "Liabilities " ∷ coverage ∷ codes "% of reserves" ∷ [])
      ∷ join (
          codes "+"
          ∷ format_bps_percent to_locale to_fixed bps
          ∷ codes " margin ("
          ∷ print_bigint bps
          ∷ codes " bps)"
          ∷ [])
      ∷ format_timestamp to_locale to_fixed proof.published_at
      ∷ proof.id
      ∷ truncate_middle inputs.root_hash 10 8
      ∷ truncate_middle proof.proof 8 6
      ∷ []

-- The bar is never wider than its frame.
percent_of-le : (r l : Option ℤ) → percent_of r l ≤ℤ pos 100
unfolding percent_of
percent_of-le (some r) (some l) = ground arith
percent_of-le none l = omega arith
percent_of-le (some r) none = omega arith
