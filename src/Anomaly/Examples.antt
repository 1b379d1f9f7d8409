-- ===== src/Anomaly/Examples.antt =====
-- Runs of anomaly.ts on small histories, and its theorems at them.
use mathlib.Core.List.{Nodup, Nodup-cons, Nodup-nil, not-mem-nil, mem-singleton}
use mathlib.Core.List.Perm
use native.Mathlib.Nat.{ℕ_set}
use solva.Prelude.{
  ℕ, ◌+◌, ◌*◌, ◌≤◌, ◌<◌, ◌≡◌, ◌≢◌, ◌↔◌, refl, true, arith, List, [], ◌∷◌, some, length,
}
use solva.Prelude.Int.{pos, negsuc}
use solva.Prelude.Text.{Text, codes, print_nat}
use solva.Prelude.BigInt.{parse_bigint, print_bigint}
use solva.SharedTypes.{Proof}
use solva.Anomaly.{
  AnomalyFlag, reserve_drift, liability_spike, cycle_timing_gap, critical, warning,
  default_thresholds, compare_cycles, detect_anomalies, finite, drift_flags, spike_flags, gap_flags,
  div_bigint, percent_change, to_fixed, insert_by_time,
}
use solva.Anomaly.Thresholds.{has_kind, drift_flagged_iff}
use solva.Anomaly.Flags.{Alarms, IsSensible, detect_anomalies-Alarms}
use solva.Anomaly.Totality.{HasTotals, detect_anomalies_total}
use solva.Anomaly.Sorting.{times, detect_anomalies-perm}

abbrev cycle : Text → Text → ℕ → Proof
cycle r l at = record {
  id = codes "p";
  proof = [];
  public_inputs = record {
    reserves_total = r;
    liabilities_total = l;
    root_hash = [];
    prev_reserves = [];
  };
  published_at = at;
}

-- Reserves fall by a fifth, liabilities rise by 15 percent, and the cycle is a second late.
abbrev before : Proof
before = cycle (codes "1000") (codes "200") 100

abbrev after : Proof
after = cycle (codes "800") (codes "230") 93701

abbrev raised : List AnomalyFlag
raised =
    record {
      kind = reserve_drift;
      severity = critical;
      proof_id = codes "p";
      value = finite (negsuc 1999);
      threshold = negsuc 999;
      message = codes "Reserves fell 20.00% from the previous cycle.";
      detected_at = 93701;
    }
    ∷ record {
      kind = liability_spike;
      severity = warning;
      proof_id = codes "p";
      value = finite (pos 1500);
      threshold = pos 1500;
      message = codes "Liabilities rose 15.00% from the previous cycle.";
      detected_at = 93701;
    }
    ∷ record {
      kind = cycle_timing_gap;
      severity = warning;
      proof_id = codes "p";
      value = finite (pos 93601);
      threshold = pos 93600;
      message = codes "Cycle arrived 93601s after the previous one, past the expected window.";
      detected_at = 93701;
    }
    ∷ []

compared : compare_cycles default_thresholds before after ≡ some raised
unfolding compare_cycles drift_flags percent_change div_bigint to_fixed spike_flags gap_flags
    parse_bigint print_bigint print_nat
compared = refl

detected : detect_anomalies default_thresholds (after ∷ before ∷ []) ≡ some raised
unfolding detect_anomalies insert_by_time compare_cycles drift_flags percent_change div_bigint
    to_fixed spike_flags gap_flags parse_bigint print_bigint print_nat
detected = refl

drift_flagged_iff_example :
    (has_kind reserve_drift raised ≡ true)
    ↔ ((0 < 1000) × (1000 * 1000 + 800 * 10000 ≤ 1000 * 10000))
unfolding parse_bigint
drift_flagged_iff_example =
    drift_flagged_iff default_thresholds before after 1000 800 1000 raised (omega arith) compared
      refl refl refl

sensible : IsSensible default_thresholds
sensible = record {
  drift = 1000;
  spike = 1500;
  gap = 93600;
  drift_eq = refl;
  spike_eq = refl;
  gap_eq = refl;
}

detect_anomalies-Alarms_example : Alarms raised
detect_anomalies-Alarms_example =
    detect_anomalies-Alarms default_thresholds (after ∷ before ∷ []) raised sensible detected

late : ◌≢◌ {A = ℕ} 93701 100
late = omega arith

distinct : Nodup (times (after ∷ before ∷ []))
distinct =
    Nodup-cons.1
      (λ m. absurd (late ((mem-singleton ℕ_set).0 m)), Nodup-cons.1 (not-mem-nil, Nodup-nil))

detect_anomalies-perm_example :
    detect_anomalies default_thresholds (after ∷ before ∷ [])
    ≡ detect_anomalies default_thresholds (before ∷ after ∷ [])
detect_anomalies-perm_example =
    detect_anomalies-perm default_thresholds (after ∷ before ∷ []) (before ∷ after ∷ [])
      (Perm.swap _ _ []) distinct

totals :
    (r l : ℕ) (p : Proof)
    → parse_bigint p.public_inputs.reserves_total ≡ some (pos r)
    → parse_bigint p.public_inputs.liabilities_total ≡ some (pos l)
    → HasTotals p
totals r l p er el = record {
  reserves = pos r;
  liabilities = pos l;
  reserves_eq = er;
  liabilities_eq = el;
}

detect_anomalies_total_example :
    (flags : List AnomalyFlag) × (detect_anomalies default_thresholds (after ∷ before ∷ [])
      ≡ some flags)
    × (length flags ≤ 3)
unfolding parse_bigint
detect_anomalies_total_example =
    detect_anomalies_total default_thresholds (after ∷ before ∷ [])
      (totals 800 230 after refl refl, (totals 1000 200 before refl refl, tt))
