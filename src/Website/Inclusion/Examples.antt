-- ===== src/Website/Inclusion/Examples.antt =====
-- The check of inclusion.ts at a snapshot of two customers.
use solva.Prelude.{◌≡◌, refl, true, [], ◌∷◌}
use solva.Prelude.Int.{pos}
use solva.Prelude.Text.{Text, codes, trim, keep, all_of, text_eq}
use solva.Website.Inclusion.{
  CustomerLeaf, InclusionSnapshot, counted, is_reference, is_compact, with_dash,
  normalize_reference, find_leaf, leaf_result, reference_result, check_inclusion,
}
use solva.Website.Inclusion.Counted.{Listed, check_inclusion-eq-counted}

abbrev same_case : Text → Text
same_case s = s

abbrev snapshot : InclusionSnapshot
snapshot = record {
  institution = codes "Northway Custody";
  asset = codes "USDC";
  decimals = 2;
  total = pos 1842090512;
  ledger = 3411902;
  customers =
      record { reference = codes "NWC-0418"; balance = pos 248015 }
      ∷ record { reference = codes "NWC-1172"; balance = pos 1290000 }
      ∷ [];
}

second_counted :
    check_inclusion same_case (codes " NWC 1172") snapshot
    ≡ counted (codes "NWC-1172") (pos 1290000) (pos 1842090512) 3411902
unfolding check_inclusion normalize_reference reference_result leaf_result find_leaf with_dash
    is_compact is_reference trim keep all_of text_eq
second_counted = refl

check_inclusion-eq-counted_example :
    (is_reference (codes "NWC-1172") ≡ true)
    × ((leaf : CustomerLeaf) × Listed (codes "NWC-1172") leaf snapshot.customers
        × (leaf.balance ≡ pos 1290000))
    × (snapshot.total ≡ pos 1842090512)
    × (snapshot.ledger ≡ 3411902)
check_inclusion-eq-counted_example =
    check_inclusion-eq-counted same_case (codes " NWC 1172") (codes "NWC-1172") snapshot
      (pos 1290000) (pos 1842090512) 3411902 second_counted
