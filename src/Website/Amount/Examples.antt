-- ===== src/Website/Amount/Examples.antt =====
-- Runs of amount.ts and coverage.ts, and their theorems at them.
use solva.Prelude.{◌≡◌, false, [], none, some}
use solva.Prelude.Int.{pos}
use solva.Prelude.Text.{codes}
use solva.Website.Amount.{CoverageRecord, short, parse_amount, format_amount}
use solva.Website.Amount.RoundTrip.{parse_amount-format_amount}

parse_amount-format_amount_example :
    parse_amount (format_amount (pos 1234567800) 7) 7 ≡ some 1234567800
parse_amount-format_amount_example = parse_amount-format_amount 1234567800 7

abbrev short_record : CoverageRecord
short_record = record {
  institution = codes "Kestrel";
  asset = codes "USDC";
  is_anchor = false;
  owed = pos 1000;
  held = pos 900;
  decimals = 0;
  state = short;
  ledger = 0;
  proven_ago = [];
  customers = none;
}
