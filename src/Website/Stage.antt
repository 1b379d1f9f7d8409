-- ===== src/Website/Stage.antt =====
-- The steps and days that the home page turns through: apps/website/src/features/home/lib/stage-steps.ts
-- with hooks/use-opening-loop.ts and hooks/use-coverage-check.ts. A scroll position between 0 and 1
-- is a fraction `p / q`.
use solva.Prelude.{
  ℕ, ◌+◌, ◌*◌, ◌/◌, ◌%◌, ◌<◌, ◌≤◌, Bool, false, not, ◌&&◌, ◌||◌, List, [], ◌∷◌, Option, ◌==◌, ltb,
  if◌then◌else◌, arith,
}
use Prim.Native.Nat.{min, max}
use solva.Prelude.Int.{ℤ, pos, ◌-ℤ◌, ◌*ℤ◌, leb_ℤ, quot}
use solva.Prelude.Text.{Text}
use solva.Website.Amount.{format_amount, coverage_percent, CoverageState, covered, short, stale}

unfoldable step_at : (p q steps : ℕ) → ℕ
step_at p q steps = min steps (max 1 (p * steps / q + 1))

step_at_bounds : (p q steps : ℕ) → 0 < steps → (1 ≤ step_at p q steps) × (step_at p q steps ≤ steps)
unfolding step_at
step_at_bounds p q steps h = ground arith

unfoldable next_day : ℕ → ℕ → ℕ
next_day index count = if count == 0 then 0 else (index + 1) % count

next_day-lt : (index count : ℕ) → 0 < count → next_day index count < count
unfolding next_day
next_day-lt index count h = grind arith

-- What the opening observes, and its index.
pub record Opening : Type 0 where
  pub index : ℕ
  pub running : Bool
  pub visible : Bool
  pub reduced : Bool
  pub hidden : Bool

-- The listeners of the first effect.
unfoldable sync : Opening → Opening
sync opening = record opening {
  running = opening.visible && not opening.reduced && not opening.hidden;
}

any_of : List Bool → Bool
any_of [] = false
any_of (b ∷ bs) = b || any_of bs

-- The observer's entries, by whether they intersect.
unfoldable observe : List Bool → Opening → Opening
unfolding sync any_of
observe entries opening = sync (record opening { visible = any_of entries })

-- The interval, which is set while the loop runs over two days or more.
unfoldable tick : ℕ → Opening → Opening
unfolding next_day
tick count opening =
    if not opening.running || ltb count 2
    then opening
    else record opening { index = next_day opening.index count }

tick-lt :
    (count : ℕ) (opening : Opening) → opening.index < count → (tick count opening).index < count
unfolding tick
tick-lt count opening h = ground (arith, next_day-lt opening.index count)

-- The slider of the coverage check, from its basis points.
abbrev owed_amount : ℤ
owed_amount = pos 24311840000

abbrev decimals : ℕ
decimals = 2

abbrev start : ℕ
start = 10361

pub record CoverageCheck : Type 0 where
  pub state : CoverageState
  pub held : Text
  pub owed : Text
  pub percent : Option Text
  pub shortfall : Text
  pub surplus : Text

held_at : ℕ → ℤ
held_at basis_points = quot (owed_amount *ℤ pos basis_points) (pos 10000)

state_of : Bool → Bool → CoverageState
state_of fresh is_covered = if not fresh then stale else (if is_covered then covered else short)

-- What the hook returns but for its state and `share`, a fraction for the drawing.
unfoldable coverage_check : ℕ → Bool → CoverageCheck
unfolding held_at state_of
coverage_check basis_points fresh =
    let held = held_at basis_points in
    let is_covered = leb_ℤ owed_amount held in
    record {
      state = state_of fresh is_covered;
      held = format_amount held decimals;
      owed = format_amount owed_amount decimals;
      percent = coverage_percent owed_amount held;
      shortfall = format_amount (if is_covered then pos 0 else owed_amount -ℤ held) decimals;
      surplus = format_amount (if is_covered then held -ℤ owed_amount else pos 0) decimals;
    }
