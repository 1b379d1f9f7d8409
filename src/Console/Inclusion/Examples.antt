-- ===== src/Console/Inclusion/Examples.antt =====
-- The page of inclusion-client.tsx: a reference is submitted, and the sample clicked behind it.
use solva.Prelude.{◌≡◌, refl, true, false, [], ◌∷◌}
use solva.Prelude.Text.{Text, codes, text_eq, trim, trim_start}
use solva.Console.Inclusion.{
  check_inclusion, has, example_reference, Checker, opened, set_reference, check, answer_first,
  submit_disabled, answer, result_area,
}
use solva.Console.Inclusion.Answered.{
  Reached, opening, typed, submitted, answered, asking, sample_and_answer, settled_answers,
  overtaken_answers,
}

abbrev mine : Text
mine = codes "ref-2000"

abbrev asked_once : Checker
asked_once = check mine (set_reference mine opened)

asked_once_reached : Reached (mine ∷ []) asked_once
unfolding submit_disabled opened set_reference trim trim_start
asked_once_reached = submitted (typed mine opening) refl

settled_answers_example :
    result_area (answer_first asked_once.awaited asked_once) ≡ answer (check_inclusion mine) mine
unfolding check answer_first set_reference opened trim trim_start
settled_answers_example =
    settled_answers (mine ∷ []) (answer_first asked_once.awaited asked_once)
      (answered asked_once_reached) refl

overtaken_answers_example :
    Reached (asking example_reference (mine ∷ [])) (sample_and_answer asked_once)
    × (result_area (sample_and_answer asked_once) ≡ answer (check_inclusion mine) example_reference)
unfolding check set_reference opened trim trim_start
overtaken_answers_example = overtaken_answers (mine ∷ []) asked_once mine asked_once_reached refl

sample_included : (check_inclusion example_reference).included ≡ true
unfolding check_inclusion has text_eq trim trim_start
sample_included = refl

mine_not_included : (check_inclusion mine).included ≡ false
unfolding check_inclusion has text_eq trim trim_start
mine_not_included = refl
