-- ===== src/Website/Amount/Coverage.antt =====
-- What the coverage figures of coverage.ts and amount.ts say of a record.
use solva.Prelude.{ℕ, suc, ◌*◌, ◌/◌, ◌≤◌, ◌<◌, ◌≡◌, ◌↔◌, ◌⊎◌, refl, arith}
use solva.Prelude.Int.{pos, ◌+ℤ◌, ◌-ℤ◌, ◌*ℤ◌, ◌≤ℤ◌, quot}
use solva.Website.Amount.{CoverageRecord, coverage_shortfall, held_basis_points}

-- The shortfall is the least amount that, added to what is held, reaches what is owed: it is not
-- negative, it is enough, and it is 0 or brings the two to the same value.
pub coverage_shortfall_least :
    (r : CoverageRecord)
    → (pos 0 ≤ℤ coverage_shortfall r)
      × (r.owed ≤ℤ r.held +ℤ coverage_shortfall r)
      × ((coverage_shortfall r ≡ pos 0) ⊎ (r.held +ℤ coverage_shortfall r ≡ r.owed))
unfolding coverage_shortfall ◌+ℤ◌ ◌-ℤ◌
coverage_shortfall_least r = ground arith

le-div_iff : (t a b : ℕ) → 0 < b → (t ≤ a / b) ↔ (t * b ≤ a)
le-div_iff t a b h = (λ k. grind arith, λ k. grind arith)

scaled : (h : ℕ) → pos h *ℤ pos 10000 ≡ pos (h * 10000)
unfolding ◌*ℤ◌
scaled h = ground arith

quot_pos : (a b : ℕ) → quot (pos a) (pos b) ≡ pos (a / b)
unfolding quot
quot_pos a b = refl

-- With o > 0 owed and h ≥ 0 held, the share is at least 10000 ten-thousandths exactly when the
-- record is covered, h ≥ o.
pub held_basis_points_iff :
    (r : CoverageRecord) (o h : ℕ)
    → r.owed ≡ pos (suc o)
    → r.held ≡ pos h
    → (pos 10000 ≤ℤ held_basis_points r) ↔ (suc o ≤ h)
unfolding held_basis_points
held_basis_points_iff r o h eo eh =
    rw (eo, eh, scaled h, quot_pos (h * 10000) (suc o))
      (ground (arith, le-div_iff 10000 (h * 10000) (suc o)))
