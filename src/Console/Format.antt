-- ===== src/Console/Format.antt =====
-- Values as the console shows them, and the report: apps/web/src/lib/format.ts and report.ts. The
-- printing of a date and of a fraction, `toLocaleString` and `toFixed`, are parameters.
use solva.Prelude.{
  ℕ, ◌+◌, ◌-◌, ◌*◌, ◌/◌, ◌%◌, Bool, List, [], ◌∷◌, ◌++◌, map, Option, some, ltb, leb, ◌==◌,
  if◌then◌else◌, length, take, drop,
}
use solva.Prelude.Int.{ℤ, pos, negsuc, ◌-ℤ◌, ◌*ℤ◌, quot, leb_ℤ}
use solva.Prelude.BigInt.{parse_bigint, print_bigint}
use solva.Prelude.Text.{Text, codes, is_digit, keep, print_nat, join}
use solva.SharedTypes.{SolvencyStatus, solvent, breach, unknown}
use solva.Website.Amount.{group_digits}
use solva.Website.Contact.Message.{join_lines}

abbrev or_zero : Text → Text
or_zero [] = codes "0"
or_zero (c ∷ s) = c ∷ s

abbrev grouped : Text → Text
grouped value = group_digits (or_zero (keep is_digit value))

unfoldable pub format_amount : Text → Text
format_amount [] = grouped []
format_amount (c ∷ value) = if c == b'-' then b'-' ∷ grouped value else grouped (c ∷ value)

margin_of : Option ℤ → Option ℤ → ℤ
margin_of (some r) (some l) = if leb_ℤ l (pos 0) then pos 0 else quot ((r -ℤ l) *ℤ pos 10000) l
margin_of _ _ = pos 0

-- The margin as an integer: `Number` is exact on it below 2^53.
unfoldable pub margin_bps : Text → Text → ℤ
unfolding margin_of
margin_bps reserves liabilities = margin_of (parse_bigint reserves) (parse_bigint liabilities)

-- `Math.round` of a quotient that is not negative.
abbrev round_div : ℕ → ℕ → ℕ
round_div n d = (2 * n + d) / (2 * d)

abbrev ago : ℕ → Text → Text
ago n unit =
    join (print_nat n ∷ codes " " ∷ unit ∷ (if n == 1 then [] else codes "s") ∷ codes " ago" ∷ [])

-- `now` is `Math.floor(Date.now() / 1000)`.
unfoldable pub format_relative_time : ℕ → ℕ → Text
format_relative_time now unix_seconds =
    let diff = now - unix_seconds in
    let minutes = round_div diff 60 in
    let hours = round_div diff 3600 in
    let days = round_div diff 86400 in
    if ltb diff 45
    then codes "just now"
    else (if ltb diff 90
        then codes "a minute ago"
        else (if ltb minutes 60
            then print_nat minutes ++ codes " minutes ago"
            else (if ltb hours 24 then ago hours (codes "hour") else ago days (codes "day"))))

-- `slice(-tail)`, which is the whole for 0.
abbrev slice_end : ℕ → Text → Text
slice_end tail value = if tail == 0 then value else drop (length value - tail) value

unfoldable pub truncate_middle : Text → ℕ → ℕ → Text
truncate_middle value head tail =
    if leb (length value) (head + tail + 1)
    then value
    else take head value ++ 0x2026 ∷ slice_end tail value

abbrev status_name : SolvencyStatus → Text
status_name solvent = codes "solvent"
status_name breach = codes "breach"
status_name unknown = codes "unknown"

pub data SourceType : Type 0 where
  attested onchain : SourceType

abbrev source_type_name : SourceType → Text
source_type_name attested = codes "attested"
source_type_name onchain = codes "onchain"

pub record Source : Type 0 where
  pub id : Text
  pub type : SourceType
  pub label : Text
  pub detail : Text
  pub connected_at : ℕ

pub record CycleRecord : Type 0 where
  pub id : Text
  pub proof_id : Text
  pub at : ℕ
  pub status : SolvencyStatus
  pub reserves_total : Text
  pub liabilities_total : Text
  pub duration_ms : ℕ

pub record DashboardData : Type 0 where
  pub sources : List Source
  pub cycles : List CycleRecord

abbrev shown_status : SolvencyStatus → Text
shown_status solvent = codes "Solvent (reserves cover liabilities)"
shown_status breach = status_name breach
shown_status unknown = status_name unknown

abbrev source_line : Source → Text
source_line source =
    join (codes "  - " ∷ source.label ∷ codes " (" ∷ source_type_name source.type ∷ codes ")" ∷ [])

abbrev source_lines : List Source → List Text
source_lines [] = codes "  (none)" ∷ []
source_lines (source ∷ sources) = map source_line (source ∷ sources)

-- `toLocaleString` of a time in seconds, in UTC, and `(bps / 100).toFixed(digits)`.
module _ (to_locale : ℕ → Text) (to_fixed : ℤ → ℕ → Text) where
  unfoldable pub format_timestamp : ℕ → Text
  format_timestamp unix_seconds = to_locale unix_seconds ++ codes " UTC"

  hundreds : ℤ → Bool
  hundreds (pos n) = n % 100 == 0
  hundreds (negsuc n) = (n + 1) % 100 == 0

  unfoldable pub format_bps_percent : ℤ → Text
  unfolding hundreds
  format_bps_percent bps = to_fixed bps (if hundreds bps then 0 else 1) ++ codes "%"

  latest_lines : CycleRecord → List Text
  unfolding margin_bps format_amount format_timestamp format_bps_percent
  latest_lines latest =
      let bps = margin_bps latest.reserves_total latest.liabilities_total in
      codes "LATEST PROOF"
      ∷ (codes "  Status:       " ++ shown_status latest.status)
      ∷ (codes "  Proof id:     " ++ latest.proof_id)
      ∷ (codes "  Reserves (R): " ++ format_amount latest.reserves_total)
      ∷ (codes "  Liabilities:  " ++ format_amount latest.liabilities_total)
      ∷ join (
          codes "  Margin:       +"
          ∷ format_bps_percent bps
          ∷ codes " ("
          ∷ print_bigint bps
          ∷ codes " bps)"
          ∷ [])
      ∷ (codes "  Verified:     on Stellar, " ++ format_timestamp latest.at)
      ∷ []
      ∷ []

  head_lines : List CycleRecord → List Text
  unfolding latest_lines
  head_lines [] = []
  head_lines (latest ∷ older) = latest_lines latest

  cycle_line : CycleRecord → Text
  unfolding format_timestamp format_amount
  cycle_line rec = join (
      codes "  "
      ∷ format_timestamp rec.at
      ∷ codes "  proof "
      ∷ rec.proof_id
      ∷ codes "  "
      ∷ status_name rec.status
      ∷ codes "  R "
      ∷ format_amount rec.reserves_total
      ∷ codes "  L "
      ∷ format_amount rec.liabilities_total
      ∷ [])

  -- The report's lines, made at `now`; they are joined by line ends.
  unfoldable pub report_lines : Text → DashboardData → ℕ → List Text
  unfolding head_lines cycle_line format_timestamp
  report_lines institution dashboard now =
      codes "SOLVA SOLVENCY REPORT"
      ∷ codes "====================="
      ∷ (codes "Institution:  " ++ institution)
      ∷ (codes "Generated:    " ++ format_timestamp now)
      ∷ []
      ∷ (head_lines dashboard.cycles
          ++ codes "CONNECTED SOURCES"
            ∷ (source_lines dashboard.sources
                ++ []
                  ∷ codes "RECENT CYCLES"
                  ∷ (map cycle_line dashboard.cycles
                      ++ []
                        ∷ codes
                            "Verify any proof independently at /verify. This report reflects proofs published"
                        ∷ codes "on-chain; nothing here exposes individual customer balances."
                        ∷ [])))

  unfoldable pub build_report : Text → DashboardData → ℕ → Text
  unfolding report_lines
  build_report institution dashboard now = join_lines (report_lines institution dashboard now)
