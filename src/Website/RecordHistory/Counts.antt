-- ===== src/Website/RecordHistory/Counts.antt =====
-- The days of a built history and their counts (apps/website/src/lib/record-history.ts).
use solva.Prelude.{ℕ, zero, suc, ◌+◌, ◌≡◌, refl, List, [], ◌∷◌, length, arith}
use solva.Prelude.Int.{ℤ}
use solva.Prelude.Text.{Text}
use solva.Website.Amount.{CoverageState, covered, short, stale}
use solva.Website.RecordHistory.{
  DayResult, StateCount, HistoryPlan, Proven, round, rounds, history_of, build_history, count_state,
  count_from, count_states,
}

abbrev pub total : StateCount → ℕ
total c = c.covered + c.short + c.stale

count_state-total : (s : CoverageState) (c : StateCount) → total (count_state s c) ≡ total c + 1
unfolding count_state
count_state-total covered c = omega arith
count_state-total short c = omega arith
count_state-total stale c = omega arith

count_from-total :
    (days : List DayResult) (c : StateCount) → total (count_from c days) ≡ total c + length days
unfolding count_from
count_from-total [] c = ground arith
count_from-total (day ∷ days) c =
    let rest = count_from-total days (count_state day.state c) in
    let one = count_state-total day.state c in omega arith

rounds-length :
    (shift_date : Text → ℤ → Text) (plan : HistoryPlan) (back index : ℕ) (proven : Proven)
    → length (rounds shift_date plan back index proven) ≡ back + 1
unfolding rounds
rounds-length shift_date plan zero index proven = ground arith
rounds-length shift_date plan (suc back) index proven =
    let rest =
      rounds-length shift_date plan back (index + 1)
        (round shift_date plan (suc back) index proven).1 in
    omega arith

history_of-length :
    (shift_date : Text → ℤ → Text) (plan : HistoryPlan) (days : ℕ)
    → length (history_of shift_date plan days) ≡ days
unfolding history_of
history_of-length shift_date plan zero = refl
history_of-length shift_date plan (suc back) =
    let n = rounds-length shift_date plan back 0 (plan.latest.owed, plan.latest.held) in omega arith

-- A built history has one result for each day planned, and the counts of its states add up to that
-- number of days.
pub build_history-count :
    (shift_date : Text → ℤ → Text) (plan : HistoryPlan)
    → (length (build_history shift_date plan) ≡ plan.days)
      × (total (count_states (build_history shift_date plan)) ≡ plan.days)
unfolding build_history count_states
build_history-count shift_date plan =
    let n = history_of-length shift_date plan plan.days in
    let c =
      count_from-total (history_of shift_date plan plan.days)
        (record { covered = 0; short = 0; stale = 0 }) in
    (n, omega arith)
