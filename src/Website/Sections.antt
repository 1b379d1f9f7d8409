-- ===== src/Website/Sections.antt =====
-- Which section of a page is shown as the one being read:
-- apps/website/src/features/legal/hooks/use-active-section.ts,
-- features/company/hooks/use-active-section.ts and features/product/hooks/use-active-step.ts. What the
-- browser's observer reports is an argument.
use solva.Prelude.{
  ℕ, ◌<◌, Bool, true, false, ◌&&◌, List, [], ◌∷◌, Option, none, some, ltb, if◌then◌else◌, arith,
}
use solva.Prelude.Text.{Text, text_eq}

-- An entry of the observer: a target, whether it intersects, and its distance from the top.
pub record Entry : Type 0 where
  pub target : Text
  pub is_intersecting : Bool
  pub top : ℕ

remove : Text → List Text → List Text
remove id [] = []
remove id (seen ∷ more) = if text_eq seen id then remove id more else seen ∷ remove id more

-- The map's keys; its values are never read.
unfoldable note : Entry → List Text → List Text
unfolding remove
note entry visible =
    if entry.is_intersecting
    then entry.target ∷ remove entry.target visible
    else remove entry.target visible

unfoldable note_all : List Entry → List Text → List Text
unfolding note
note_all [] visible = visible
note_all (entry ∷ entries) visible = note_all entries (note entry visible)

has : Text → List Text → Bool
has id [] = false
has id (seen ∷ more) = if text_eq seen id then true else has id more

unfoldable first_visible : List Text → List Text → Option Text
unfolding has
first_visible [] visible = none
first_visible (target ∷ targets) visible =
    if has target visible then some target else first_visible targets visible

-- The hook of the legal pages: what is active, and what is visible.
pub record Active : Type 0 where
  pub active : Option Text
  pub visible : List Text

or_kept : Option Text → Option Text → Option Text
or_kept none active = active
or_kept (some id) active = some id

unfoldable observed : List Text → List Entry → Active → Active
unfolding note_all first_visible or_kept
observed targets entries hook =
    let visible = note_all entries hook.visible in
    record { active = or_kept (first_visible targets visible) hook.active; visible = visible }

-- The nearest to the top of the entries that intersect; the first of several as near.
nearest : Option Entry → List Entry → Option Entry
nearest best [] = best
nearest none (entry ∷ entries) =
    nearest (if entry.is_intersecting then some entry else none) entries
nearest (some best) (entry ∷ entries) =
    nearest (some (if entry.is_intersecting && ltb entry.top best.top then entry else best)) entries

active_after : Option Entry → Text → Text
active_after none active = active
active_after (some entry) active = entry.target

-- The hook of the company's pages.
unfoldable company_observed : List Entry → Text → Text
unfolding nearest active_after
company_observed entries active = active_after (nearest none entries) active

-- The hook of the steps: an index for each entry that intersects an element, where it has one.
unfoldable step_observed : ℕ → List (Option ℕ) → ℕ → ℕ
step_observed count [] active = active
step_observed count (none ∷ steps) active = step_observed count steps active
step_observed count (some index ∷ steps) active =
    step_observed count steps (if ltb index count then index else active)

-- The active step is one of those that there are.
step_observed-lt :
    (count : ℕ) (steps : List (Option ℕ)) (active : ℕ)
    → active < count
    → step_observed count steps active < count
unfolding step_observed
step_observed-lt count [] active h = h
step_observed-lt count (none ∷ steps) active h = step_observed-lt count steps active h
step_observed-lt count (some index ∷ steps) active h =
    step_observed-lt count steps (if ltb index count then index else active) (ground arith)
