-- ===== src/Anomaly/Totality.antt =====
-- anomaly.ts answers every history whose totals parse, with at most three flags for each cycle.
use solva.Prelude.{
  suc, ◌-◌, ◌*◌, ◌≤◌, ◌≡◌, refl, arith, List, [], ◌∷◌, ◌++◌, some, length, length-append, All,
}
use solva.Prelude.Int.{ℤ}
use solva.Anomaly.Thresholds.{change_of, percent_change-change_of}
use solva.Prelude.BigInt.{parse_bigint}
use solva.SharedTypes.{Proof}
use solva.Anomaly.{
  Measure, drift_flags, spike_flags, gap_flags, cycle_timing_gap_of, reserve_drift_of,
  liability_spike_of, AnomalyFlag, AnomalyThresholds, compare_cycles, insert_by_time, sort_by_time,
  scan_from, scan_ordered, detect_anomalies,
}
use solva.Anomaly.Flags.{length-compare_cycles}

-- Both totals of the proof are integers.
pub record HasTotals (p : Proof) : Type 0 where
  pub reserves : ℤ
  pub liabilities : ℤ
  pub reserves_eq : parse_bigint p.public_inputs.reserves_total ≡ some reserves
  pub liabilities_eq : parse_bigint p.public_inputs.liabilities_total ≡ some liabilities

reserve_drift_of_total :
    (prev curr : Proof)
    → HasTotals prev
    → HasTotals curr
    → (change : Measure) × (reserve_drift_of prev curr ≡ some change)
unfolding reserve_drift_of
reserve_drift_of_total prev curr h k = (
  change_of h.reserves k.reserves,
  rw (h.reserves_eq, k.reserves_eq) (percent_change-change_of h.reserves k.reserves),
)

liability_spike_of_total :
    (prev curr : Proof)
    → HasTotals prev
    → HasTotals curr
    → (change : Measure) × (liability_spike_of prev curr ≡ some change)
unfolding liability_spike_of
liability_spike_of_total prev curr h k = (
  change_of h.liabilities k.liabilities,
  rw (h.liabilities_eq, k.liabilities_eq) (percent_change-change_of h.liabilities k.liabilities),
)

compare_cycles_total :
    (thresholds : AnomalyThresholds) (prev curr : Proof)
    → HasTotals prev
    → HasTotals curr
    → (flags : List AnomalyFlag) × (compare_cycles thresholds prev curr ≡ some flags)
unfolding compare_cycles
compare_cycles_total thresholds prev curr h k =
    let (drift, falls) = reserve_drift_of_total prev curr h k in
    let (spike, rises) = liability_spike_of_total prev curr h k in
    (
      drift_flags thresholds curr drift
          ++ (spike_flags thresholds curr spike
              ++ gap_flags thresholds curr (cycle_timing_gap_of prev curr)),
      rw (falls, rises) refl,
    )

insert_by_time-HasTotals :
    (p : Proof) (ps : List Proof)
    → HasTotals p
    → All HasTotals ps
    → All HasTotals (insert_by_time p ps)
unfolding insert_by_time
insert_by_time-HasTotals p [] h k = (h, tt)
insert_by_time-HasTotals p (q ∷ ps) h k = ground (arith, insert_by_time-HasTotals p ps h k.1)

sort_by_time-HasTotals : (ps : List Proof) → All HasTotals ps → All HasTotals (sort_by_time ps)
unfolding sort_by_time
sort_by_time-HasTotals [] h = tt
sort_by_time-HasTotals (p ∷ ps) h =
    insert_by_time-HasTotals p (sort_by_time ps) h.0 (sort_by_time-HasTotals ps h.1)

length-insert_by_time :
    (p : Proof) (ps : List Proof) → length (insert_by_time p ps) ≡ suc (length ps)
unfolding insert_by_time
length-insert_by_time p [] = refl
length-insert_by_time p (q ∷ ps) = ground (arith, length-insert_by_time p ps)

length-sort_by_time : (ps : List Proof) → length (sort_by_time ps) ≡ length ps
unfolding sort_by_time
length-sort_by_time [] = refl
length-sort_by_time (p ∷ ps) =
    omega (arith, length-insert_by_time p (sort_by_time ps), length-sort_by_time ps)

scan_from_total :
    (thresholds : AnomalyThresholds) (prev : Proof) (ps : List Proof)
    → HasTotals prev
    → All HasTotals ps
    → (flags : List AnomalyFlag) × (scan_from thresholds prev ps ≡ some flags)
      × (length flags ≤ 3 * length ps)
unfolding scan_from
scan_from_total thresholds prev [] h k = ([], refl, omega arith)
scan_from_total thresholds prev (curr ∷ ps) h k =
    let (here, eh) = compare_cycles_total thresholds prev curr h k.0 in
    let (later, el, few) = scan_from_total thresholds curr ps k.0 k.1 in
    (
      here ++ later,
      rw (eh, el) refl,
      omega (arith, length-append here later, length-compare_cycles thresholds prev curr here eh),
    )

scan_ordered_total :
    (thresholds : AnomalyThresholds) (ps : List Proof)
    → All HasTotals ps
    → (flags : List AnomalyFlag) × (scan_ordered thresholds ps ≡ some flags)
      × (length flags ≤ 3 * (length ps - 1))
unfolding scan_ordered
scan_ordered_total thresholds [] k = ([], refl, omega arith)
scan_ordered_total thresholds (p ∷ ps) k =
    let (flags, e, few) = scan_from_total thresholds p ps k.0 k.1 in (flags, e, omega arith)

-- A history whose totals are all integers is scanned to the end, with no division by 0 and no other
-- throw: the scan returns flags, at most three for each proof but one.
pub detect_anomalies_total :
    (thresholds : AnomalyThresholds) (proofs : List Proof)
    → All HasTotals proofs
    → (flags : List AnomalyFlag) × (detect_anomalies thresholds proofs ≡ some flags)
      × (length flags ≤ 3 * (length proofs - 1))
unfolding detect_anomalies
detect_anomalies_total thresholds proofs k =
    let (flags, e, few) =
      scan_ordered_total thresholds (sort_by_time proofs) (sort_by_time-HasTotals proofs k) in
    (flags, e, omega (arith, length-sort_by_time proofs))

-- A single proof has nothing to be compared with.
pub detect_anomalies_singleton :
    (thresholds : AnomalyThresholds) (p : Proof) → detect_anomalies thresholds (p ∷ []) ≡ some []
unfolding detect_anomalies insert_by_time
detect_anomalies_singleton thresholds p = refl
