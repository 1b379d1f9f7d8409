-- ===== src/Anomaly/Flags.antt =====
-- What anomaly.ts answers for a whole history.
use solva.Prelude.{
  ℕ, ◌+◌, ◌≤◌, ◌<◌, ◌≡◌, ◌≢◌, ◌↔◌, true, arith, List, [], ◌∷◌, ◌++◌, Option, none, some, length,
  All, All-append,
}
use solva.Prelude.Int.{ℤ, pos, negsuc, ◌-ℤ◌, abs, negate}
use solva.SharedTypes.{Proof}
use solva.Anomaly.{
  ◌>>=◌, Measure, finite, infinity, at_most, magnitude_of, cycle_timing_gap, AnomalyFlag, info,
  AnomalyThresholds, severity_for, drift_flags, spike_flags, gap_flags, reserve_drift_of,
  liability_spike_of, cycle_timing_gap_of, compare_cycles, sort_by_time, scan_from, scan_ordered,
  detect_anomalies,
}
use solva.Anomaly.Thresholds.{has_kind}

-- Thresholds that are not negative.
pub record IsSensible (thresholds : AnomalyThresholds) : Type 0 where
  pub drift : ℕ
  pub spike : ℕ
  pub gap : ℕ
  pub drift_eq : thresholds.reserve_drift_pct ≡ pos drift
  pub spike_eq : thresholds.liability_spike_pct ≡ pos spike
  pub gap_eq : thresholds.cycle_timing_gap_sec ≡ pos gap

abbrev pub Alarms : List AnomalyFlag → Type 0
Alarms = All (λ f. f.severity ≢ info)

severity-fall :
    (drift : Measure) (t : ℕ)
    → at_most drift (negate (pos t)) ≡ true
    → severity_for (magnitude_of drift) (pos t) ≢ info
unfolding abs severity_for ◌-ℤ◌
severity-fall (finite (pos n)) t h = ground arith
severity-fall (finite (negsuc n)) t h = ground arith
severity-fall infinity t h = ground arith

drift_flags-Alarms :
    (thresholds : AnomalyThresholds) (curr : Proof) (drift : Measure)
    → IsSensible thresholds
    → Alarms (drift_flags thresholds curr drift)
unfolding drift_flags
drift_flags-Alarms thresholds curr drift h =
    rw h.drift_eq (ground (arith, severity-fall drift h.drift))

spike_flags-Alarms :
    (thresholds : AnomalyThresholds) (curr : Proof) (spike : Measure)
    → Alarms (spike_flags thresholds curr spike)
unfolding spike_flags severity_for
spike_flags-Alarms thresholds curr spike = ground arith

gap_flags-Alarms :
    (thresholds : AnomalyThresholds) (curr : Proof) (gap : ℤ)
    → Alarms (gap_flags thresholds curr gap)
unfolding gap_flags severity_for
gap_flags-Alarms thresholds curr gap = ground arith

-- A round that ends pushes the flags of its three tests.
compare_cycles_parts :
    (thresholds : AnomalyThresholds) (prev curr : Proof) (flags : List AnomalyFlag)
    → compare_cycles thresholds prev curr ≡ some flags
    → (drift spike : Measure) × (flags
        ≡ drift_flags thresholds curr drift
          ++ (spike_flags thresholds curr spike
              ++ gap_flags thresholds curr (cycle_timing_gap_of prev curr)))
unfolding compare_cycles
compare_cycles_parts thresholds prev curr flags e =
    go (reserve_drift_of prev curr) (liability_spike_of prev curr) e
  where
    go :
        (d s : Option Measure)
        → (d >>= λ drift. s >>= λ spike. some (
            drift_flags thresholds curr drift
            ++ (spike_flags thresholds curr spike
                ++ gap_flags thresholds curr (cycle_timing_gap_of prev curr))))
          ≡ some flags
        → (drift spike : Measure) × (flags
            ≡ drift_flags thresholds curr drift
              ++ (spike_flags thresholds curr spike
                  ++ gap_flags thresholds curr (cycle_timing_gap_of prev curr)))
    go none s e' = cc
    go (some drift) none e' = cc
    go (some drift) (some spike) e' = (drift, spike, cc)

compare_cycles-Alarms :
    (thresholds : AnomalyThresholds) (prev curr : Proof) (flags : List AnomalyFlag)
    → IsSensible thresholds
    → compare_cycles thresholds prev curr ≡ some flags
    → Alarms flags
compare_cycles-Alarms thresholds prev curr flags h e =
    let (drift, spike, parts) = compare_cycles_parts thresholds prev curr flags e in
    let gap = cycle_timing_gap_of prev curr in
    rw parts (
      All-append _ _ _ (drift_flags-Alarms thresholds curr drift h) (
        All-append _ _ _ (spike_flags-Alarms thresholds curr spike)
          (gap_flags-Alarms thresholds curr gap)))

pub length-compare_cycles :
    (thresholds : AnomalyThresholds) (prev curr : Proof) (flags : List AnomalyFlag)
    → compare_cycles thresholds prev curr ≡ some flags
    → length flags ≤ 3
unfolding drift_flags spike_flags gap_flags
length-compare_cycles thresholds prev curr flags e =
    let (drift, spike, parts) = compare_cycles_parts thresholds prev curr flags e in
    rw parts (ground arith)

drift_flags-no_gap :
    (thresholds : AnomalyThresholds) (curr : Proof) (drift : Measure) (more : List AnomalyFlag)
    → has_kind cycle_timing_gap (drift_flags thresholds curr drift ++ more)
      ≡ has_kind cycle_timing_gap more
unfolding drift_flags
drift_flags-no_gap thresholds curr drift more = ground arith

spike_flags-no_gap :
    (thresholds : AnomalyThresholds) (curr : Proof) (spike : Measure) (more : List AnomalyFlag)
    → has_kind cycle_timing_gap (spike_flags thresholds curr spike ++ more)
      ≡ has_kind cycle_timing_gap more
unfolding spike_flags
spike_flags-no_gap thresholds curr spike more = ground arith

gap_flags_iff :
    (thresholds : AnomalyThresholds) (prev curr : Proof) (s : ℕ)
    → thresholds.cycle_timing_gap_sec ≡ pos s
    → (has_kind cycle_timing_gap (gap_flags thresholds curr (cycle_timing_gap_of prev curr)) ≡ true)
      ↔ (prev.published_at + s < curr.published_at)
unfolding gap_flags cycle_timing_gap_of
gap_flags_iff thresholds prev curr s es = rw es (ground arith)

-- Publish times a and b with a limit of s seconds: a round that ends flags a timing gap exactly
-- when b is later than a + s.
pub gap_flagged_iff :
    (thresholds : AnomalyThresholds) (prev curr : Proof) (s : ℕ) (flags : List AnomalyFlag)
    → thresholds.cycle_timing_gap_sec ≡ pos s
    → compare_cycles thresholds prev curr ≡ some flags
    → (has_kind cycle_timing_gap flags ≡ true) ↔ (prev.published_at + s < curr.published_at)
gap_flagged_iff thresholds prev curr s flags es e =
    let (drift, spike, parts) = compare_cycles_parts thresholds prev curr flags e in
    rw (parts, drift_flags-no_gap, spike_flags-no_gap) (gap_flags_iff thresholds prev curr s es)

scan_from_parts :
    (thresholds : AnomalyThresholds) (prev curr : Proof) (rest : List Proof)
    (flags : List AnomalyFlag)
    → scan_from thresholds prev (curr ∷ rest) ≡ some flags
    → (here later : List AnomalyFlag) × (compare_cycles thresholds prev curr ≡ some here)
      × (scan_from thresholds curr rest ≡ some later)
      × (flags ≡ here ++ later)
unfolding scan_from
scan_from_parts thresholds prev curr rest flags e = ground arith

-- The loop over an ordered history: what holds of each round's flags.
scan_from-Alarms :
    (thresholds : AnomalyThresholds) (prev : Proof) (ps : List Proof) (flags : List AnomalyFlag)
    → IsSensible thresholds
    → scan_from thresholds prev ps ≡ some flags
    → Alarms flags
unfolding scan_from
scan_from-Alarms thresholds prev [] flags h e = ground arith
scan_from-Alarms thresholds prev (curr ∷ rest) flags h e =
    let (here, later, eh, el, parts) = scan_from_parts thresholds prev curr rest flags e in
    rw parts (
      All-append _ here later (compare_cycles-Alarms thresholds prev curr here h eh)
        (scan_from-Alarms thresholds curr rest later h el))

-- With thresholds that are not negative, every flag that the scan of a history raises is a warning
-- or critical, never of severity info.
pub detect_anomalies-Alarms :
    (thresholds : AnomalyThresholds) (proofs : List Proof) (flags : List AnomalyFlag)
    → IsSensible thresholds
    → detect_anomalies thresholds proofs ≡ some flags
    → Alarms flags
unfolding detect_anomalies scan_ordered
detect_anomalies-Alarms thresholds proofs flags h e = go (sort_by_time proofs) e
  where
    go : (ordered : List Proof) → scan_ordered thresholds ordered ≡ some flags → Alarms flags
    go [] e' = ground arith
    go (first ∷ rest) e' = scan_from-Alarms thresholds first rest flags h e'
