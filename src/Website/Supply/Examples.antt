-- ===== src/Website/Supply/Examples.antt =====
-- A run of `readSupplySnapshot` against a Horizon that always answers, and the theorems at it.
use solva.Prelude.{ℕ, ◌+◌, ◌<◌, ◌≡◌, refl, [], ◌∷◌, none, some, arith}
use solva.Prelude.Text.{codes, value, keep, all_of}
use solva.Prelude.Effect.{ok}
use solva.Website.Amount.{
  parse_amount, parse_cleaned, is_amount, before_point, after_point, read_parts,
}
use solva.Website.Supply.{
  StellarAsset, SupplySnapshot, Horizon, read_supply_snapshot, read_anew, read_rows, read_asset,
  read_ledger, get_json, keep_snapshot, supply_from_record, units,
}
use solva.Website.Supply.Cached.{IsKept, read_supply_snapshot-IsKept, age}

-- The world is the clock, and a request takes ten milliseconds.
abbrev horizon : Horizon ℕ
horizon = record {
  url = codes "h";
  now = λ w. (w, w);
  fetch = λ path w. (ok (record { status = 200; body = some [] }), w + 10);
  asset_record = λ t. ok (
      some (record {
        authorized = some (codes "2");
        authorized_to_maintain = none;
        claimable_balances_amount = none;
        liquidity_pools_amount = none;
        contracts_amount = some (codes "0.5");
        authorized_accounts = some 3;
      }));
  ledger_record = λ t. ok (some (record { sequence = some 9; closed_at = some (codes "now") }));
}

abbrev usdc : StellarAsset
usdc = record { code = codes "USDC"; issuer = codes "G" }

abbrev snapshot : SupplySnapshot
snapshot = record {
  rows = record { asset = usdc; supply = 25000000; holders = 3 } ∷ [];
  ledger = 9;
  closed_at = codes "now";
}

first_read :
    read_supply_snapshot horizon (usdc ∷ []) none 0 ≡ (some snapshot, some (20, snapshot), 20)
unfolding read_supply_snapshot read_anew read_rows read_asset read_ledger get_json keep_snapshot
    supply_from_record units parse_amount parse_cleaned is_amount before_point after_point
    read_parts value keep all_of
first_read = refl

read_supply_snapshot-IsKept_example :
    IsKept
      (read_supply_snapshot horizon (usdc ∷ []) none 0).0
      (read_supply_snapshot horizon (usdc ∷ []) none 0).1
read_supply_snapshot-IsKept_example = read_supply_snapshot-IsKept horizon (usdc ∷ []) none 0 tt

kept_now : age 20 (some (20, snapshot)) < 300000
unfolding age
kept_now = omega arith
