-- ===== src/Website/RecordHistory/Examples.antt =====
-- The counts of record-history.ts at a plan of ten days.
use solva.Prelude.{◌≡◌, false, [], ◌∷◌, none}
use solva.Prelude.Int.{ℤ, pos}
use solva.Prelude.Text.{Text, codes}
use solva.Website.Amount.{covered}
use solva.Website.RecordHistory.{HistoryPlan, build_history, count_states}
use solva.Website.RecordHistory.Counts.{total, build_history-count}

abbrev plan : HistoryPlan
plan = record {
  latest = record {
    institution = codes "Kestrel";
    asset = codes "ARSK";
    is_anchor = false;
    owed = pos 5000000000;
    held = pos 5100000000;
    decimals = 2;
    state = covered;
    ledger = 3411902;
    proven_ago = [];
    customers = none;
  };
  latest_date = codes "2026-11-02";
  days = 10;
  short_days = 4 ∷ [];
  stale_days = 6 ∷ 7 ∷ [];
}

abbrev same_date : Text → ℤ → Text
same_date date days = date

planned_days : total (count_states (build_history same_date plan)) ≡ 10
planned_days = (build_history-count same_date plan).1
