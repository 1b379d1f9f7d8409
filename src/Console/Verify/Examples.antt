-- ===== src/Console/Verify/Examples.antt =====
-- The page of verify-client.tsx: a look-up with the prefix that people paste.
use solva.Prelude.{◌≡◌, refl, [], ◌∷◌, Option, none, some}
use solva.Prelude.Text.{Text, codes, text_eq, trim, trim_start}
use solva.SharedTypes.{Proof}
use solva.Console.Verify.{
  lookup_proof, Page, opened, set_query, look_up, looked_up, answer_first, find_record,
  strip_prefix, proof_of, drop_mark,
}
use solva.Console.Verify.Sheet.{submit_disabled}
use solva.Console.Verify.Settled.{
  Reached, opening, typed, submitted, answered, Shows, settled-Shows,
}

abbrev pasted : Text
pasted = codes "PRF_1041"

abbrev asked_once : Page
asked_once = look_up pasted (set_query pasted opened)

asked_once_reached : Reached (pasted ∷ []) asked_once
unfolding submit_disabled opened set_query trim trim_start
asked_once_reached = submitted (typed pasted opening) refl

abbrev found_id : Option Proof → Text
found_id none = []
found_id (some proof) = proof.id

found_with_prefix : found_id (lookup_proof 1000000 pasted) ≡ codes "1041"
unfolding lookup_proof find_record strip_prefix proof_of drop_mark text_eq trim trim_start
found_with_prefix = refl

settled-Shows_example : Shows (pasted ∷ []) (answer_first 1000000 asked_once.awaited asked_once)
unfolding look_up set_query opened answer_first looked_up lookup_proof find_record strip_prefix
    proof_of drop_mark text_eq trim trim_start
settled-Shows_example =
    settled-Shows (pasted ∷ []) (answer_first 1000000 asked_once.awaited asked_once)
      (answered 1000000 asked_once_reached) refl
