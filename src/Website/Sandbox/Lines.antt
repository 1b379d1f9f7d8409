-- ===== src/Website/Sandbox/Lines.antt =====
-- The log lines of apps/website/src/features/product/lib/sandbox.ts.
use solva.Prelude.{
  ℕ, ◌-◌, Bool, ◌&&◌, List, [], ◌∷◌, ◌++◌, Option, none, some, ltb, ◌==◌, if◌then◌else◌, length,
  take, replicate,
}
use solva.Prelude.Int.{ℤ, leb_ℤ}
use solva.Prelude.Text.{Text, codes, join, print_nat, is_truthy}
use solva.Prelude.BigInt.{parse_bigint}
use solva.Website.Amount.{group_digits}
use solva.Website.Institutions.{DemoInstitution, ReserveSource, attested, onchain, format_usdc}
use solva.Website.Sandbox.{
  LogLine, LogKind, info, detail, success, warn, ProofDto, ContractDto, ChainRecord, SignedBalance,
}

abbrev pub line : LogKind → List Text → LogLine
line kind parts = record { kind = kind; text = join parts }

-- `value ?? fallback`.
abbrev pub or_text : Option Text → Text → Text
or_text none t = t
or_text (some s) t = s

abbrev or_number : Option ℕ → Text → Text
or_number none t = t
or_number (some n) t = print_nat n

pub commas : Option Text → Text
commas none = codes "0"
commas (some s) = if is_truthy s then group_digits s else codes "0"

abbrev amount_from : ReserveSource → Option Text → Text
amount_from attested value = commas value
amount_from (onchain account code issuer) value = format_usdc (or_text value (codes "0"))

amount : Option Text → DemoInstitution → Text
amount value institution = amount_from institution.reserves value

-- `slice(0, length)` with an ellipsis behind it.
truncate : Text → ℕ → Text
truncate value limit = if ltb limit (length value) then take limit value ++ codes "…" else value

pub registry_lines : DemoInstitution → ContractDto → List LogLine
registry_lines institution contract =
    line success (codes "Registry entry found for " ∷ institution.name ∷ codes "." ∷ [])
    ∷ line detail (codes "contract  " ∷ or_text contract.contract_id (codes "unknown") ∷ [])
    ∷ line detail (codes "network   " ∷ or_text contract.network (codes "testnet") ∷ [])
    ∷ line info (codes "Owner only. Nobody but the institution can publish to it." ∷ [])
    ∷ []

pub record Connected : Type 0 where
  pub client_id : Option Text
  pub code : Option Text
  pub token_type : Option Text
  pub access_token : Text
  pub expires_in : Option ℕ

pub connect_lines : Connected → List LogLine
unfolding truncate
connect_lines response =
    line info (codes "GET  /oauth/authorize?client_id=" ∷ or_text response.client_id [] ∷ [])
    ∷ line detail (codes "→ code " ∷ or_text response.code [] ∷ [])
    ∷ line info (codes "POST /oauth/token  (grant: authorization_code)" ∷ [])
    ∷ line detail (
        codes "→ "
        ∷ or_text response.token_type (codes "Bearer")
        ∷ codes " "
        ∷ truncate response.access_token 28
        ∷ codes "  (expires in "
        ∷ or_number response.expires_in (codes "0")
        ∷ codes "s)"
        ∷ [])
    ∷ line success (codes "Connected to the reserve source." ∷ [])
    ∷ []

pub onchain_connect_lines : ReserveSource → List LogLine
onchain_connect_lines attested = []
onchain_connect_lines (onchain account code issuer) =
    line info (codes "Reserves are held on Stellar Testnet in account" ∷ [])
    ∷ line detail (codes "  " ∷ account ∷ [])
    ∷ line detail (codes "  asset " ∷ code ∷ codes " (Circle)" ∷ [])
    ∷ line success (codes "No authorisation is needed: balances on Stellar are public." ∷ [])
    ∷ []

pub onchain_reserves_lines : ReserveSource → Text → List LogLine
unfolding truncate
onchain_reserves_lines attested balance = []
onchain_reserves_lines (onchain account code issuer) balance =
    line info (codes "GET  horizon-testnet.stellar.org/accounts/" ∷ truncate account 12 ∷ [])
    ∷ line detail (
        code
        ∷ codes " balance  "
        ∷ format_usdc balance
        ∷ codes "  (read from Stellar Testnet)"
        ∷ [])
    ∷ line success (
        codes "Reserves R = "
        ∷ format_usdc balance
        ∷ codes " (read from the account on Stellar)."
        ∷ [])
    ∷ []

-- `padEnd(width)`.
abbrev pad_end : ℕ → Text → Text
pad_end width s = s ++ replicate (width - length s) 32

balance_lines : List SignedBalance → List LogLine
unfolding commas truncate
balance_lines [] = []
balance_lines (item ∷ rest) =
    line detail (pad_end 12 item.source_id ∷ codes " " ∷ commas (some item.balance) ∷ [])
    ∷ line info (codes "  sig " ∷ truncate item.signature 40 ∷ codes "  ✓ signature verified" ∷ [])
    ∷ balance_lines rest

pub reserves_lines : List SignedBalance → Option Text → List LogLine
unfolding balance_lines
reserves_lines balances total =
    balance_lines balances
    ++ line success
        (codes "Reserves R = " ∷ commas total ∷ codes " (signed by the reserve source)." ∷ [])
      ∷ []

pub rejected_lines : List LogLine
rejected_lines =
    line info (codes "Committing what is owed…" ∷ [])
    ∷ line warn (codes "Refused: reserves are below what is owed (R < L)." ∷ [])
    ∷ line warn (codes "No proof was made. A short position is never written as covered." ∷ [])
    ∷ []

-- `replace(/^0x/, "")`.
strip_prefix : Text → Text
strip_prefix (a ∷ b ∷ s) = if (a == b'0') && (b == b'x') then s else a ∷ b ∷ s
strip_prefix s = s

pub published_lines : ProofDto → DemoInstitution → List LogLine
unfolding amount strip_prefix
published_lines proof institution =
    line info (codes "Committing what is owed…" ∷ [])
    ∷ line detail (codes "commitment  0x" ∷ strip_prefix (or_text proof.root_hash []) ∷ [])
    ∷ line info (codes "Generating the proof…" ∷ [])
    ∷ line detail (
        codes "proven totals  R="
        ∷ amount proof.reserves_total institution
        ∷ codes "  L="
        ∷ amount proof.liabilities_total institution
        ∷ [])
    ∷ line info (codes "publish_proof  →  signed by the registry owner" ∷ [])
    ∷ line success (
        codes "Published on Stellar as proof #"
        ∷ or_number proof.chain_proof_id (codes "?")
        ∷ codes "."
        ∷ [])
    ∷ []

-- `BigInt(record.reserves) >= BigInt(record.liabilities)`; none is a SyntaxError.
unfoldable pub compare_record : Option ℤ → Option ℤ → Option Bool
compare_record (some r) (some l) = some (leb_ℤ l r)
compare_record _ _ = none

unfoldable pub record_covers : ChainRecord → Option Bool
unfolding compare_record
record_covers rec = compare_record (parse_bigint rec.reserves) (parse_bigint rec.liabilities)

pub verify_lines : Bool → ChainRecord → DemoInstitution → List LogLine
unfolding amount
verify_lines covers rec institution =
    line info (codes "get_latest_proof  →  read from the registry on Stellar" ∷ [])
    ∷ line detail (
        codes "R="
        ∷ amount (some rec.reserves) institution
        ∷ codes "  L="
        ∷ amount (some rec.liabilities) institution
        ∷ [])
    ∷ (if covers
        then line success (codes "R ≥ L on Stellar. The published record covers what is owed." ∷ [])
        else line warn (codes "R < L on Stellar. Reserves do not cover what is owed." ∷ []))
    ∷ []

pub record Counted : Type 0 where
  pub balance : Option Text
  pub path_length : Option ℕ
  pub chain_proof_id : Option Text
  pub on_chain : Bool

pub inclusion_lines : Counted → DemoInstitution → List LogLine
unfolding amount
inclusion_lines response institution =
    line info (codes "Holder cust-001  (id hash 0x00000000…)" ∷ [])
    ∷ line detail (codes "committed balance  " ∷ amount response.balance institution ∷ [])
    ∷ line detail (
        codes "inclusion path     "
        ∷ or_number response.path_length (codes "0")
        ∷ codes " steps to the commitment"
        ∷ [])
    ∷ (if response.on_chain
        then line info (codes "verify_inclusion  →  true, on the registry on Stellar" ∷ [])
          ∷ line success (
              codes "Counted in proof #"
              ∷ or_text response.chain_proof_id (codes "?")
              ∷ codes ", confirmed by the contract. No customer is named."
              ∷ [])
          ∷ []
        else line warn
            (codes "verify_inclusion  →  false. The contract did not confirm this holder." ∷ [])
          ∷ [])
