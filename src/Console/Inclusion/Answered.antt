-- ===== src/Console/Inclusion/Answered.antt =====
-- Whose answer the page of inclusion-client.tsx shows.
use solva.Prelude.{
  ◌≡◌, refl, ap, ◌⊎◌, inl, inr, false, List, [], ◌∷◌, some, Bool-cases, if◌then◌else◌,
}
use solva.Prelude.Text.{Text, is_truthy, trim, trim_start}
use solva.Prelude.Pending.{Ends, Ends-tail}
use solva.Console.Inclusion.{
  check_inclusion, example_reference, idle, done, Checker, opened, set_reference, check,
  answer_first, submit_disabled, how_it_works, answer, view_of, result_area,
}

-- A check of a reference that is not blank is asked for; the newest stands first.
abbrev pub asking : Text → List Text → List Text
asking raw_ref asked = if is_truthy (trim raw_ref) then trim raw_ref ∷ asked else asked

-- What a visitor and the answers do, with the references asked for.
pub data Reached : List Text → Checker → Type 0 where
  opening : Reached [] opened
  typed :
      {asked : List Text} {page : Checker} (reference : Text)
      → Reached asked page
      → Reached asked (set_reference reference page)
  submitted :
      {asked : List Text} {page : Checker}
      → Reached asked page
      → submit_disabled page ≡ false
      → Reached (asking page.reference asked) (check page.reference page)
  sampled :
      {asked : List Text} {page : Checker}
      → Reached asked page
      → Reached
          (asking example_reference asked)
          (check example_reference (set_reference example_reference page))
  answered :
      {asked : List Text} {page : Checker}
      → Reached asked page
      → Reached asked (answer_first page.awaited page)

-- The reference beside the answer is the one asked for last; the state is that of its check unless
-- others are awaited.
abbrev Inv : List Text → Checker → Type 0
Inv [] page = (page.state ≡ idle) × (page.awaited ≡ [])
Inv (ref ∷ asked) page =
    (page.checked_ref ≡ ref)
    × (Ends ref page.awaited
        ⊎ ((page.awaited ≡ []) × (page.state ≡ done) × (page.result ≡ some (check_inclusion ref))))

answer_first-Inv :
    (asked awaited : List Text) (page : Checker)
    → page.awaited ≡ awaited
    → Inv asked page
    → Inv asked (answer_first awaited page)
unfolding answer_first
answer_first-Inv asked [] page e inv = inv
answer_first-Inv [] (first ∷ later) page e inv = cc
answer_first-Inv (ref ∷ asked) (first ∷ later) page e (beside, inr (none_left, state, result)) = cc
answer_first-Inv (ref ∷ asked) (first ∷ later) page e (beside, inl (before, ends)) =
    elim (Ends-tail ref first later (before, cc)) [
      | inl still ↦ (beside, inl still)
      | inr (last, same) ↦
          (beside, inr (last, refl, ap (λ (r : Text). some (check_inclusion r)) same))
    ]

check-Inv :
    (raw_ref : Text) (asked : List Text) (page : Checker)
    → Inv asked page
    → Inv (asking raw_ref asked) (check raw_ref page)
unfolding check
check-Inv raw_ref asked page inv = elim (Bool-cases (is_truthy (trim raw_ref))) [
  | inl given ↦ rw given (refl, inl (page.awaited, refl))
  | inr blank ↦ rw blank inv
]

set_reference-Inv :
    (reference : Text) (asked : List Text) (page : Checker)
    → Inv asked page
    → Inv asked (set_reference reference page)
unfolding set_reference
set_reference-Inv reference [] page inv = inv
set_reference-Inv reference (ref ∷ asked) page inv = inv

Reached-Inv : {asked : List Text} {page : Checker} → Reached asked page → Inv asked page
unfolding opened
Reached-Inv opening = (refl, refl)
Reached-Inv (typed {asked} {page} reference r) =
    set_reference-Inv reference asked page (Reached-Inv r)
Reached-Inv (submitted {asked} {page} r ready) = check-Inv page.reference asked page (Reached-Inv r)
Reached-Inv (sampled {asked} {page} r) =
    check-Inv example_reference asked (set_reference example_reference page)
      (set_reference-Inv example_reference asked page (Reached-Inv r))
Reached-Inv (answered {asked} {page} r) =
    answer_first-Inv asked page.awaited page refl (Reached-Inv r)

abbrev pub Shows : List Text → Checker → Type 0
Shows [] page = result_area page ≡ how_it_works
Shows (ref ∷ asked) page = result_area page ≡ answer (check_inclusion ref) ref

Inv-Shows :
    (asked : List Text) (page : Checker) → page.awaited ≡ [] → Inv asked page → Shows asked page
unfolding result_area
Inv-Shows [] page quiet inv = rw (inv.0, view_of)
Inv-Shows (ref ∷ asked) page quiet (beside, inr (e, state, result)) =
    rw (state, result, beside, view_of)
Inv-Shows (ref ∷ asked) page quiet (beside, inl ([], e)) = cc
Inv-Shows (ref ∷ asked) page quiet (beside, inl (x ∷ before, e)) = cc

-- Whatever was typed, submitted or taken from the sample, and however the answers fell between:
-- once no check is awaited, the page shows the answer of the reference asked for last, beside that
-- reference, and the explanation where none was asked for.
pub settled_answers :
    (asked : List Text) (page : Checker) → Reached asked page → page.awaited ≡ [] → Shows asked page
settled_answers asked page r quiet = Inv-Shows asked page quiet (Reached-Inv r)

-- The page after a click on the sample and the next answer.
abbrev pub sample_and_answer : Checker → Checker
sample_and_answer page =
    let asked = check example_reference (set_reference example_reference page) in
    answer_first asked.awaited asked

-- While one check is awaited the sample can still be asked for, and the next answer, the one of
-- the earlier reference, is then shown beside the sample's reference.
pub overtaken_answers :
    (asked : List Text) (page : Checker) (earlier : Text)
    → Reached asked page
    → page.awaited ≡ earlier ∷ []
    → Reached (asking example_reference asked) (sample_and_answer page)
      × (result_area (sample_and_answer page) ≡ answer (check_inclusion earlier) example_reference)
unfolding check set_reference answer_first result_area trim trim_start
overtaken_answers asked page earlier r alone =
    (answered (sampled r), rw (alone, answer_first, view_of))
