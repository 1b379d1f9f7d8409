-- ===== src/Anomaly.antt =====
-- packages/shared-types/src/anomaly.ts: what the oracle and the dashboard flag in a proof history.
-- A percent is a whole number of hundredths, as `Number(scaled) / 100` is; `Number` is exact below
-- 2^53, which is the range meant here. Percent thresholds are in hundredths too.
pub mod Sorting
pub mod Thresholds
pub mod Flags
pub mod Totality
mod Examples
use solva.Prelude.{
  ℕ, suc, ◌+◌, ◌*◌, ◌/◌, ◌%◌, List, [], ◌∷◌, ◌++◌, Option, none, some, Bool, true, false, leb, ◌==◌,
  if◌then◌else◌, not,
}
use solva.Prelude.Int.{ℤ, pos, negsuc, ◌-ℤ◌, ◌*ℤ◌, sub_ℕ, abs, leb_ℤ, negate, quot, is_zero}
use solva.Prelude.Text.{Text, codes, print_nat}
use solva.Prelude.BigInt.{parse_bigint, print_bigint}
use solva.SharedTypes.{Proof}

pub data AnomalyKind : Type 0 where
  reserve_drift liability_spike cycle_timing_gap : AnomalyKind

pub data AnomalySeverity : Type 0 where
  info warning critical : AnomalySeverity

-- A JavaScript number that is a whole number of units, or `Infinity`.
pub data Measure : Type 0 where
  finite : ℤ → Measure
  infinity : Measure

pub record AnomalyFlag : Type 0 where
  pub kind : AnomalyKind
  pub severity : AnomalySeverity
  pub proof_id : Text
  pub value : Measure
  pub threshold : ℤ
  pub message : Text
  pub detected_at : ℕ

pub record AnomalyThresholds : Type 0 where
  pub reserve_drift_pct : ℤ
  pub liability_spike_pct : ℤ
  pub cycle_timing_gap_sec : ℤ

abbrev pub default_thresholds : AnomalyThresholds
default_thresholds = record {
  reserve_drift_pct = pos 1000;
  liability_spike_pct = pos 1500;
  cycle_timing_gap_sec = pos (60 * 60 * 26);
}

-- `BigInt` throws a SyntaxError on other text; `none` stands for any throw.
infixl 5 ◌>>=◌
abbrev ◌>>=◌ {ℓ κ} : {A : Type ℓ} {B : Type κ} → Option A → (A → Option B) → Option B
none >>= f = none
some a >>= f = f a

-- `/` of two BigInts, which throws a RangeError where the divisor is 0.
pub div_bigint : ℤ → ℤ → Option ℤ
unfolding quot
div_bigint a b = if is_zero b then none else some (quot a b)

pub percent_change : ℤ → ℤ → Option Measure
unfolding ◌-ℤ◌ ◌*ℤ◌ div_bigint
percent_change prev curr =
    if is_zero prev
    then some (if is_zero curr then finite (pos 0) else infinity)
    else (do scaled ← div_bigint ((curr -ℤ prev) *ℤ pos 10000) prev; some (finite scaled))

percent_of : Text → Text → Option Measure
unfolding percent_change
percent_of prev curr = do p ← parse_bigint prev; c ← parse_bigint curr; percent_change p c

pub reserve_drift_of : Proof → Proof → Option Measure
unfolding percent_of
reserve_drift_of prev curr =
    percent_of prev.public_inputs.reserves_total curr.public_inputs.reserves_total

pub liability_spike_of : Proof → Proof → Option Measure
unfolding percent_of
liability_spike_of prev curr =
    percent_of prev.public_inputs.liabilities_total curr.public_inputs.liabilities_total

pub cycle_timing_gap_of : Proof → Proof → ℤ
cycle_timing_gap_of prev curr = sub_ℕ curr.published_at prev.published_at

-- `value <= bound` and `value >= bound`.
abbrev at_most : Measure → ℤ → Bool
at_most (finite z) bound = leb_ℤ z bound
at_most infinity bound = false

abbrev at_least : Measure → ℤ → Bool
at_least (finite z) bound = leb_ℤ bound z
at_least infinity bound = true

abbrev magnitude_of : Measure → Measure
magnitude_of (finite z) = finite (abs z)
magnitude_of infinity = infinity

pub severity_for : Measure → ℤ → AnomalySeverity
unfolding ◌*ℤ◌
severity_for magnitude threshold =
    if at_least magnitude (threshold *ℤ pos 2)
    then critical
    else if at_least magnitude threshold
    then warning
    else info

-- `toFixed(2)` of a percent: its hundredths with a point put in.
fixed_nat : ℕ → Text
fixed_nat n = print_nat (n / 100) ++ b'.' ∷ (b'0' + n % 100 / 10) ∷ (b'0' + n % 10) ∷ []

to_fixed : Measure → Text
unfolding fixed_nat
to_fixed (finite (pos n)) = fixed_nat n
to_fixed (finite (negsuc n)) = b'-' ∷ fixed_nat (suc n)
to_fixed infinity = codes "Infinity"

-- The three tests of the loop's body, each with the flag that it pushes.
drift_flags : AnomalyThresholds → Proof → Measure → List AnomalyFlag
unfolding abs severity_for
drift_flags thresholds curr drift =
    if at_most drift (negate thresholds.reserve_drift_pct)
    then record {
      kind = reserve_drift;
      severity = severity_for (magnitude_of drift) thresholds.reserve_drift_pct;
      proof_id = curr.id;
      value = drift;
      threshold = negate thresholds.reserve_drift_pct;
      message =
          codes "Reserves fell "
          ++ to_fixed (magnitude_of drift)
          ++ codes "% from the previous cycle.";
      detected_at = curr.published_at;
    }
      ∷ []
    else []

spike_flags : AnomalyThresholds → Proof → Measure → List AnomalyFlag
unfolding severity_for
spike_flags thresholds curr spike =
    if at_least spike thresholds.liability_spike_pct
    then record {
      kind = liability_spike;
      severity = severity_for spike thresholds.liability_spike_pct;
      proof_id = curr.id;
      value = spike;
      threshold = thresholds.liability_spike_pct;
      message = codes "Liabilities rose " ++ to_fixed spike ++ codes "% from the previous cycle.";
      detected_at = curr.published_at;
    }
      ∷ []
    else []

gap_flags : AnomalyThresholds → Proof → ℤ → List AnomalyFlag
unfolding severity_for
gap_flags thresholds curr gap =
    if not (leb_ℤ gap thresholds.cycle_timing_gap_sec)
    then record {
      kind = cycle_timing_gap;
      severity = severity_for (finite gap) thresholds.cycle_timing_gap_sec;
      proof_id = curr.id;
      value = finite gap;
      threshold = thresholds.cycle_timing_gap_sec;
      message =
          codes "Cycle arrived "
          ++ print_bigint gap
          ++ codes "s after the previous one, past the expected window.";
      detected_at = curr.published_at;
    }
      ∷ []
    else []

-- One round of the loop.
pub compare_cycles : AnomalyThresholds → Proof → Proof → Option (List AnomalyFlag)
unfolding reserve_drift_of liability_spike_of cycle_timing_gap_of
compare_cycles thresholds prev curr = do
  drift ← reserve_drift_of prev curr
  spike ← liability_spike_of prev curr
  some (
      drift_flags thresholds curr drift
      ++ (spike_flags thresholds curr spike
          ++ gap_flags thresholds curr (cycle_timing_gap_of prev curr)))

-- `[...proofs].sort((a, b) => a.publishedAt - b.publishedAt)`, which is stable.
pub insert_by_time : Proof → List Proof → List Proof
insert_by_time p [] = p ∷ []
insert_by_time p (q ∷ rest) =
    if leb p.published_at q.published_at then p ∷ q ∷ rest else q ∷ insert_by_time p rest

pub sort_by_time : List Proof → List Proof
sort_by_time [] = []
sort_by_time (p ∷ rest) = insert_by_time p (sort_by_time rest)

scan_from : AnomalyThresholds → Proof → List Proof → Option (List AnomalyFlag)
scan_from thresholds prev [] = some []
scan_from thresholds prev (curr ∷ rest) = do
  flags ← compare_cycles thresholds prev curr
  more ← scan_from thresholds curr rest
  some (flags ++ more)

pub scan_ordered : AnomalyThresholds → List Proof → Option (List AnomalyFlag)
unfolding scan_from
scan_ordered thresholds [] = some []
scan_ordered thresholds (first ∷ rest) = scan_from thresholds first rest

unfoldable pub detect_anomalies : AnomalyThresholds → List Proof → Option (List AnomalyFlag)
unfolding sort_by_time scan_ordered
detect_anomalies thresholds proofs = scan_ordered thresholds (sort_by_time proofs)
