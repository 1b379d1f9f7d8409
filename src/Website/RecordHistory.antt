-- ===== src/Website/RecordHistory.antt =====
-- apps/website/src/lib/record-history.ts: a history of daily results behind a coverage record. The
-- shift of a date, which `Date` computes, is a parameter.
pub mod Counts
mod Examples
use solva.Prelude.{
  ℕ, zero, suc, ◌+◌, ◌-◌, ◌*◌, ◌%◌, Bool, true, false, List, [], ◌∷◌, ◌++◌, map, Option, none, some,
  ltb, ◌==◌, ◌||◌, if◌then◌else◌, length, take, drop, ◌&&◌,
}
use solva.Prelude.Int.{ℤ, pos, negate, ◌-ℤ◌, ◌*ℤ◌, leb_ℤ, quot}
use solva.Prelude.Text.{Text, codes}
use solva.Website.Amount.{CoverageRecord, CoverageState, covered, short, stale}

pub record DayResult : Type 0 where
  pub date : Text
  pub state : CoverageState
  pub owed : ℤ
  pub held : ℤ
  pub ledger : Option ℤ

pub record StateCount : Type 0 where
  pub covered : ℕ
  pub short : ℕ
  pub stale : ℕ

pub record HistoryPlan : Type 0 where
  pub latest : CoverageRecord
  pub latest_date : Text
  pub days : ℕ
  pub short_days : List ℕ
  pub stale_days : List ℕ

-- `includes`.
pub includes : List ℕ → ℕ → Bool
includes [] n = false
includes (m ∷ ms) n = (m == n) || includes ms n

-- The values proven last: owed and held.
abbrev pub Proven : Type 0
Proven = ℤ × ℤ

unfoldable pub basis_points : HistoryPlan → ℕ → ℤ
unfolding includes
basis_points plan index =
    if includes plan.short_days index then pos 9940 else pos (10200 + index * 37 % 41 * 10)

unfoldable pub held_of : ℤ → ℤ → ℤ
held_of owed basis = quot (owed *ℤ basis) (pos 10000)

module _ (shift_date : Text → ℤ → Text) (plan : HistoryPlan) where
  unfoldable pub latest_day : DayResult
  latest_day = record {
    date = shift_date plan.latest_date (pos 0);
    state = plan.latest.state;
    owed = plan.latest.owed;
    held = plan.latest.held;
    ledger = some (pos plan.latest.ledger);
  }

  owed_on : ℕ → ℤ
  owed_on back = plan.latest.owed -ℤ pos (back * 31250000)

  unfoldable pub stale_day : ℕ → Proven → DayResult
  stale_day back (owed, held) = record {
    date = shift_date plan.latest_date (negate (pos back));
    state = stale;
    owed = owed;
    held = held;
    ledger = none;
  }

  unfoldable pub proven_day : ℕ → ℕ → ℤ → ℤ → DayResult
  proven_day back index owed held = record {
    date = shift_date plan.latest_date (negate (pos back));
    state = if leb_ℤ owed held then covered else short;
    owed = owed;
    held = held;
    ledger = some ((pos plan.latest.ledger -ℤ pos (back * 15840)) -ℤ pos (index * 37 % 211));
  }

  -- A round that is not the last, and the values proven last behind it.
  unfoldable pub round : ℕ → ℕ → Proven → DayResult × Proven
  unfolding includes basis_points held_of owed_on stale_day proven_day
  round back index proven =
      let owed = owed_on back in
      let held = held_of owed (basis_points plan index) in
      if includes plan.stale_days index
      then (stale_day back proven, proven)
      else (proven_day back index owed held, (owed, held))

  -- The loop from `index` on, with `back` rounds to go before the last.
  unfoldable pub rounds : ℕ → ℕ → Proven → List DayResult
  unfolding round latest_day
  rounds zero index proven = latest_day ∷ []
  rounds (suc back) index proven =
      let (day, later) = round (suc back) index proven in day ∷ rounds back (index + 1) later

  unfoldable pub history_of : ℕ → List DayResult
  unfolding rounds
  history_of zero = []
  history_of (suc back) = rounds back 0 (plan.latest.owed, plan.latest.held)

  unfoldable pub build_history : List DayResult
  unfolding history_of
  build_history = history_of plan.days

unfoldable pub count_state : CoverageState → StateCount → StateCount
count_state covered c = record c { covered = c.covered + 1 }
count_state short c = record c { short = c.short + 1 }
count_state stale c = record c { stale = c.stale + 1 }

count_from : StateCount → List DayResult → StateCount
unfolding count_state
count_from c [] = c
count_from c (day ∷ days) = count_from (count_state day.state c) days

unfoldable pub count_states : List DayResult → StateCount
unfolding count_from
count_states days = count_from (record { covered = 0; short = 0; stale = 0 }) days

unfoldable pub truncate_address : Text → Text
truncate_address address =
    if ltb 12 (length address)
    then take 4 address ++ codes "..." ++ drop (length address - 4) address
    else address

is_some : Option ℤ → Bool
is_some none = false
is_some (some n) = true

-- Whether a day has a ledger.
unfoldable pub proof_days : List DayResult → List Bool
unfolding is_some
proof_days days = map (λ (d : DayResult). is_some d.ledger) days

-- `startsWith`.
starts_with : Text → Text → Bool
starts_with [] s = true
starts_with (c ∷ prefix) [] = false
starts_with (c ∷ prefix) (d ∷ s) = (c == d) && starts_with prefix s

unfoldable pub days_in_month : List DayResult → Text → List DayResult
unfolding starts_with
days_in_month [] year_month = []
days_in_month (day ∷ days) year_month =
    let rest = days_in_month days year_month in
    if starts_with (year_month ++ codes "-") day.date then day ∷ rest else rest

pub record CollateralDecision : Type 0 where
  pub is_accepting : Bool
  pub status : Text
  pub reason : Text

-- `collateralDecision` of apps/website/src/features/solutions/lib/collateral.ts.
unfoldable pub collateral_decision : Text → CoverageState → CollateralDecision
collateral_decision asset covered = record {
  is_accepting = true;
  status = codes "Accepting deposits";
  reason = asset ++ codes " is covered, so new deposits count as collateral.";
}
collateral_decision asset short = record {
  is_accepting = false;
  status = codes "Deposits paused";
  reason = asset ++ codes " is short. New deposits wait until a proof shows it covered again.";
}
collateral_decision asset stale = record {
  is_accepting = false;
  status = codes "Deposits paused";
  reason = asset ++ codes " is stale. With no recent proof, the pool treats coverage as unknown.";
}
