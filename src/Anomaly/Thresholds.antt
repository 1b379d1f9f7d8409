-- ===== src/Anomaly/Thresholds.antt =====
-- When anomaly.ts flags a change, in whole-number arithmetic with no division.
use solva.Prelude.{
  ℕ, suc, ◌+◌, ◌-◌, ◌*◌, ◌/◌, ◌≤◌, ◌<◌, ◌≡◌, ◌↔◌, Bool, true, false, refl, Bool-cases, inl, inr,
  if◌then◌else◌, arith, zero, dec_lt,
}
use solva.Prelude.Int.{ℤ, is_zero, pos, ◌-ℤ◌, ◌*ℤ◌, quot, negate, sub_ℕ}
use solva.Prelude.{◌||◌, List, [], ◌∷◌, some}
use solva.Prelude.BigInt.{parse_bigint}
use solva.SharedTypes.{Proof}
use solva.Anomaly.{
  Measure, finite, infinity, div_bigint, percent_change, at_most, AnomalyKind, reserve_drift,
  liability_spike, cycle_timing_gap, AnomalyFlag, AnomalyThresholds, compare_cycles, drift_flags,
  spike_flags, gap_flags,
}

-- The change, where a division by 0 would answer 0.
pub change_of : ℤ → ℤ → Measure
unfolding ◌-ℤ◌ ◌*ℤ◌ quot
change_of prev curr =
    if is_zero prev
    then (if is_zero curr then finite (pos 0) else infinity)
    else finite (quot ((curr -ℤ prev) *ℤ pos 10000) prev)

-- The division is reached only with a divisor that is not 0.
pub percent_change-change_of :
    (prev curr : ℤ) → percent_change prev curr ≡ some (change_of prev curr)
unfolding percent_change div_bigint change_of
percent_change-change_of prev curr = elim (Bool-cases (is_zero prev)) [
  | inl nothing ↦ rw nothing refl
  | inr something ↦ rw something refl
]

le-div_iff : (t a b : ℕ) → 0 < b → (t ≤ a / b) ↔ (t * b ≤ a)
le-div_iff t a b h = (λ k. grind arith, λ k. grind arith)

scaled_fall : (p c : ℕ) → c < p → (pos c -ℤ pos p) *ℤ pos 10000 ≡ sub_ℕ 0 ((p - c) * 10000)
unfolding ◌-ℤ◌ ◌*ℤ◌
scaled_fall p c h = ground arith

scaled_rise : (p c : ℕ) → p ≤ c → (pos c -ℤ pos p) *ℤ pos 10000 ≡ pos ((c - p) * 10000)
unfolding ◌-ℤ◌ ◌*ℤ◌
scaled_rise p c h = ground arith

quot_neg : (a b : ℕ) → 0 < b → quot (sub_ℕ 0 a) (pos b) ≡ sub_ℕ 0 (a / b)
unfolding quot
quot_neg a b h = ground arith

fall_iff :
    (p c t : ℕ)
    → 0 < t
    → (at_most (change_of (pos p) (pos c)) (negate (pos t)) ≡ true)
      ↔ ((0 < p) × (t * p + c * 10000 ≤ p * 10000))
unfolding change_of
fall_iff zero c t h = ground arith
fall_iff (suc p) c t h = elim (dec_lt c (suc p)) [
  | yes fell ↦
      rw (scaled_fall (suc p) c fell, quot_neg ((suc p - c) * 10000) (suc p) (omega arith))
        (ground (arith, le-div_iff t ((suc p - c) * 10000) (suc p)))
  | no rose ↦ rw (scaled_rise (suc p) c (omega arith)) (ground arith)
]

abbrev pub is_kind : AnomalyKind → AnomalyKind → Bool
is_kind reserve_drift reserve_drift = true
is_kind liability_spike liability_spike = true
is_kind cycle_timing_gap cycle_timing_gap = true
is_kind _ _ = false

abbrev pub has_kind : AnomalyKind → List AnomalyFlag → Bool
has_kind k [] = false
has_kind k (f ∷ fs) = is_kind k f.kind || has_kind k fs

module _ (thresholds : AnomalyThresholds) (prev curr : Proof) (p c t : ℕ) (flags : List AnomalyFlag)
    (positive : 0 < t) (scanned : compare_cycles thresholds prev curr ≡ some flags) where
  -- With reserve totals p and c (not negative) and a threshold of t > 0 hundredths of a percent, a
  -- round that ends flags a reserve drift exactly when p > 0 and c ≤ p - t p / 10000.
  pub drift_flagged_iff :
      parse_bigint prev.public_inputs.reserves_total ≡ some (pos p)
      → parse_bigint curr.public_inputs.reserves_total ≡ some (pos c)
      → thresholds.reserve_drift_pct ≡ pos t
      → (has_kind reserve_drift flags ≡ true) ↔ ((0 < p) × (t * p + c * 10000 ≤ p * 10000))
  unfolding compare_cycles drift_flags spike_flags gap_flags
  drift_flagged_iff ep ec et =
      ground (arith, fall_iff p c t, percent_change-change_of (pos p) (pos c))
