-- ===== src/Console/Verify/Settled.antt =====
-- What the page of verify-client.tsx shows once its look-ups are answered.
use solva.Prelude.{
  ℕ, ◌≡◌, refl, ap, ◌∙◌, ◌⊎◌, inl, inr, true, false, List, [], ◌∷◌, Option, none, some, Bool-cases,
  if◌then◌else◌,
}
use mathlib.Core.List.{Mem}
use mathlib.Core.Path.{subst}
use solva.Prelude.Text.{Text, is_truthy, trim}
use solva.Prelude.Pending.{Ends, Ends-tail}
use solva.SharedTypes.{Proof}
use solva.Console.Verify.{
  example_proof_ids, lookup_proof, Page, found, not_found, LookupState, ClientCheck, opened,
  set_query, look_up, looked_up, answer_first, run_client_check, run_client_check_of,
}
use solva.Console.Verify.Sheet.{
  View, trust_points, no_proof, sheet, result_area, submit_disabled, view_of,
}

-- A look-up of an id that is not blank is asked for; the newest stands first.
abbrev pub asking : Text → List Text → List Text
asking raw_id asked = if is_truthy (trim raw_id) then trim raw_id ∷ asked else asked

-- What a visitor, the link that led to the page, and the answers do, with the ids asked for.
pub data Reached : List Text → Page → Type 0 where
  opening : Reached [] opened
  typed :
      {asked : List Text} {page : Page} (query : Text)
      → Reached asked page
      → Reached asked (set_query query page)
  submitted :
      {asked : List Text} {page : Page}
      → Reached asked page
      → submit_disabled page ≡ false
      → Reached (asking page.query asked) (look_up page.query page)
  sampled :
      {asked : List Text} {page : Page} (id : Text)
      → Mem id example_proof_ids
      → Reached asked page
      → Reached (asking id asked) (look_up id (set_query id page))
  linked :
      {asked : List Text} {page : Page} (id : Text)
      → is_truthy id ≡ true
      → Reached asked page
      → Reached (asking id asked) (look_up id (set_query id page))
  answered :
      {asked : List Text} {page : Page} (now : ℕ)
      → Reached asked page
      → Reached asked (answer_first now page.awaited page)
  checked :
      {asked : List Text} {page : Page}
      → Reached asked page
      → page.state ≡ found
      → Reached asked (run_client_check page)

-- What the state says of an id that was looked up.
abbrev Displays : Text → Option Proof → Page → Type 0
Displays id (some proof) page = (page.state ≡ found) × (page.proof ≡ some proof)
Displays id none page = (page.state ≡ not_found) × (page.missed_id ≡ id)

abbrev Inv : List Text → Page → Type 0
Inv [] page = (page.state ≡ LookupState.idle) × (page.awaited ≡ [])
Inv (id ∷ asked) page =
    Ends id page.awaited
    ⊎ ((page.awaited ≡ []) × (now : ℕ) × Displays id (lookup_proof now id) page)

looked_up-Displays :
    (id : Text) (answer : Option Proof) (page : Page)
    → Displays id answer (looked_up id answer page)
unfolding looked_up
looked_up-Displays id none page = (refl, refl)
looked_up-Displays id (some proof) page = (refl, refl)

looked_up-awaited :
    (id : Text) (answer : Option Proof) (page : Page)
    → (looked_up id answer page).awaited ≡ page.awaited
unfolding looked_up
looked_up-awaited id none page = refl
looked_up-awaited id (some proof) page = refl

-- What the invariant speaks of is the same in both.
abbrev Agrees : Page → Page → Type 0
Agrees page page' =
    (page'.state ≡ page.state)
    × (page'.proof ≡ page.proof)
    × (page'.missed_id ≡ page.missed_id)
    × (page'.awaited ≡ page.awaited)

Displays-kept :
    (id : Text) (answer : Option Proof) (page page' : Page)
    → Agrees page page'
    → Displays id answer page
    → Displays id answer page'
Displays-kept id none page page' same shown = (same.0 ∙ shown.0, same.2 ∙ shown.1)
Displays-kept id (some proof) page page' same shown = (same.0 ∙ shown.0, same.1 ∙ shown.1)

Inv-kept :
    (asked : List Text) (page page' : Page) → Agrees page page' → Inv asked page → Inv asked page'
Inv-kept [] page page' same inv = (same.0 ∙ inv.0, same.3 ∙ inv.1)
Inv-kept (id ∷ asked) page page' same (inl (before, e)) = inl (before, same.3 ∙ e)
Inv-kept (id ∷ asked) page page' same (inr (e, now, shown)) =
    inr (same.3 ∙ e, now, Displays-kept id (lookup_proof now id) page page' same shown)

run_client_check_of-Agrees :
    (proof : Option Proof) (page : Page) → Agrees page (run_client_check_of proof page)
unfolding run_client_check_of
run_client_check_of-Agrees none page = (refl, refl, refl, refl)
run_client_check_of-Agrees (some proof) page = (refl, refl, refl, refl)

answer_first-Inv :
    (now : ℕ) (asked awaited : List Text) (page : Page)
    → page.awaited ≡ awaited
    → Inv asked page
    → Inv asked (answer_first now awaited page)
unfolding answer_first
answer_first-Inv now asked [] page e inv = inv
answer_first-Inv now [] (first ∷ later) page e inv = cc
answer_first-Inv now (id ∷ asked) (first ∷ later) page e (inr (none_left, later_now, known)) = cc
answer_first-Inv now (id ∷ asked) (first ∷ later) page e (inl (before, ends)) =
    elim (Ends-tail id first later (before, cc)) [
      | inl (rest, f) ↦ inl (rest, kept ∙ f)
      | inr (last, same) ↦ inr (
        kept ∙ last,
        now,
        subst
            (λ (x : Text).
              Displays x (lookup_proof now x)
                (looked_up first (lookup_proof now first) (record page { awaited = later })))
            same
            (looked_up-Displays first (lookup_proof now first) (record page { awaited = later })),
      )
    ]
  where
    kept :
        (looked_up first (lookup_proof now first) (record page { awaited = later })).awaited ≡ later
    kept = looked_up-awaited first (lookup_proof now first) (record page { awaited = later })

look_up-Inv :
    (raw_id : Text) (asked : List Text) (page : Page)
    → Inv asked page
    → Inv (asking raw_id asked) (look_up raw_id page)
unfolding look_up
look_up-Inv raw_id asked page inv = elim (Bool-cases (is_truthy (trim raw_id))) [
  | inl given ↦ rw given (inl (page.awaited, refl))
  | inr blank ↦ rw blank inv
]

Reached-Inv : {asked : List Text} {page : Page} → Reached asked page → Inv asked page
unfolding opened set_query run_client_check
Reached-Inv opening = (refl, refl)
Reached-Inv (typed {asked} {page} query r) =
    Inv-kept asked page (set_query query page) (refl, refl, refl, refl) (Reached-Inv r)
Reached-Inv (submitted {asked} {page} r ready) = look_up-Inv page.query asked page (Reached-Inv r)
Reached-Inv (sampled {asked} {page} id known r) =
    look_up-Inv id asked (set_query id page)
      (Inv-kept asked page (set_query id page) (refl, refl, refl, refl) (Reached-Inv r))
Reached-Inv (linked {asked} {page} id given r) =
    look_up-Inv id asked (set_query id page)
      (Inv-kept asked page (set_query id page) (refl, refl, refl, refl) (Reached-Inv r))
Reached-Inv (answered {asked} {page} now r) =
    answer_first-Inv now asked page.awaited page refl (Reached-Inv r)
Reached-Inv (checked {asked} {page} r ready) =
    Inv-kept asked page (run_client_check page) (run_client_check_of-Agrees page.proof page)
      (Reached-Inv r)

abbrev pub shown : Text → Option Proof → ClientCheck → View
shown id none check = no_proof id
shown id (some proof) check = sheet proof check

-- The result area for an id, by what a look-up of it gave.
abbrev pub Shows : List Text → Page → Type 0
Shows [] page = result_area page ≡ trust_points
Shows (id ∷ asked) page = (now : ℕ) × (result_area page ≡ shown id (lookup_proof now id) page.check)

result_area-Displays :
    (id : Text) (answer : Option Proof) (page : Page)
    → Displays id answer page
    → result_area page ≡ shown id answer page.check
unfolding result_area
result_area-Displays id none page (state, missed) = rw (state, view_of) (ap no_proof missed)
result_area-Displays id (some proof) page (state, kept) = rw (state, kept, view_of)

Inv-Shows :
    (asked : List Text) (page : Page) → page.awaited ≡ [] → Inv asked page → Shows asked page
unfolding result_area
Inv-Shows [] page quiet inv = rw (inv.0, view_of)
Inv-Shows (id ∷ asked) page quiet (inr (e, now, known)) =
    (now, result_area-Displays id (lookup_proof now id) page known)
Inv-Shows (id ∷ asked) page quiet (inl ([], e)) = cc
Inv-Shows (id ∷ asked) page quiet (inl (x ∷ before, e)) = cc

-- Whatever was typed, submitted, taken from the samples or from a link, and however the answers
-- fell between: once no look-up is awaited, the page shows what the look-up of the id asked for
-- last gave, as its proof with the state of the check, or as an id under which none is published;
-- and it shows the introduction where nothing was asked for.
pub settled-Shows :
    (asked : List Text) (page : Page) → Reached asked page → page.awaited ≡ [] → Shows asked page
settled-Shows asked page r quiet = Inv-Shows asked page quiet (Reached-Inv r)
