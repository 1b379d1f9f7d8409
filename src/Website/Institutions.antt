-- ===== src/Website/Institutions.antt =====
-- apps/website/src/lib/demo-institutions.ts, and horizon-reserves.ts's reading of an account.
use solva.Prelude.{
  ℕ, ◌-◌, ◌≡◌, refl, Bool, false, ◌&&◌, List, [], ◌∷◌, ◌++◌, Option, none, some, ◌==◌,
  if◌then◌else◌, length, take, drop, replicate,
}
use mathlib.Core.List.{reverse}
use solva.Prelude.Text.{Text, codes, text_eq}
use solva.Prelude.BigInt.{parse_bigint, print_bigint}
use solva.Website.Amount.{before_point, after_point, pad_start}

pub data ReserveSource : Type 0 where
  attested : ReserveSource
  onchain : (account code issuer : Text) → ReserveSource

pub record DemoInstitution : Type 0 where
  pub name : Text
  pub kind : Text
  pub owes : Text
  pub tenant_id : Text
  pub reserves : ReserveSource

abbrev usdc_issuer : Text
usdc_issuer = codes "GBBD47IF6LWK7P7MDEVSCWR7DPUWV3NY3DTQEVFL4NAT4AQH3ZLLFLA5"

unfoldable pub solstice : DemoInstitution
solstice = record {
  name = codes "Solstice";
  kind = codes "Custodial app";
  owes = codes "Customer balances, committed as one value";
  tenant_id = codes "22222222-2222-2222-2222-222222222222";
  reserves = attested;
}

unfoldable pub kestrel : DemoInstitution
kestrel = record {
  name = codes "Kestrel";
  kind = codes "Anchor";
  owes = codes "Holder balances, committed as one value";
  tenant_id = codes "11111111-1111-1111-1111-111111111111";
  reserves = attested;
}

unfoldable pub harbor_wallet : DemoInstitution
harbor_wallet = record {
  name = codes "Harbor Wallet";
  kind = codes "Custodial app";
  owes = codes "Customer balances in USDC, with reserves read from Stellar";
  tenant_id = codes "33333333-3333-3333-3333-333333333333";
  reserves =
      onchain (codes "GCPBHMM7KSE74LO757SPKBE3PHWYRTKKKVBCVZURBFM6B2GSOPAJAR4R") (codes "USDC")
        usdc_issuer;
}

unfoldable pub demo_institutions : List DemoInstitution
unfolding solstice kestrel harbor_wallet
demo_institutions = solstice ∷ kestrel ∷ harbor_wallet ∷ []

pub find_tenant : Text → List DemoInstitution → Option DemoInstitution
find_tenant tenant [] = none
find_tenant tenant (i ∷ rest) =
    if text_eq i.tenant_id tenant then some i else find_tenant tenant rest

unfoldable pub demo_institution : Text → Option DemoInstitution
unfolding find_tenant demo_institutions
demo_institution tenant = find_tenant tenant demo_institutions

-- A line of a Horizon account. A native balance has no code and no issuer.
pub record BalanceLine : Type 0 where
  pub asset_code : Option Text
  pub asset_issuer : Option Text
  pub balance : Text

abbrev is_text : Option Text → Text → Bool
is_text none t = false
is_text (some s) t = text_eq s t

pub find_line : Text → Text → List BalanceLine → Option BalanceLine
find_line code issuer [] = none
find_line code issuer (item ∷ rest) =
    if is_text item.asset_code code && is_text item.asset_issuer issuer
    then some item
    else find_line code issuer rest

-- `padEnd(width, "0")`.
abbrev pad_end : ℕ → Text → Text
pad_end width s = s ++ replicate (width - length s) b'0'

abbrev fraction_of : Option Text → Text
fraction_of none = []
fraction_of (some f) = before_point f

-- The amount of a balance in stroops: the parts before and after the point, seven digits of it.
-- The outer option is what `BigInt` throws.
pub stroops : Text → Option Text
stroops balance =
    elim (parse_bigint
      (before_point balance ++ take 7 (pad_end 7 (fraction_of (after_point balance))))) [
        | none ↦ none
        | some n ↦ some (print_bigint n)
      ]

pub data Holding : Type 0 where
  missing unreadable : Holding
  holds : Text → Holding

abbrev holding_of : Option Text → Holding
holding_of none = unreadable
holding_of (some t) = holds t

unfoldable pub holding_balance : List BalanceLine → Text → Text → Holding
unfolding find_line stroops
holding_balance balances code issuer = elim (find_line code issuer balances) [
  | none ↦ missing
  | some line ↦ holding_of (stroops line.balance)
]

-- `replace(/0+$/, "")`.
drop_zeros : Text → Text
drop_zeros [] = []
drop_zeros (c ∷ s) = if c == b'0' then drop_zeros s else c ∷ s

abbrev point_before : Text → Text
point_before [] = []
point_before (c ∷ s) = b'.' ∷ c ∷ s

unfoldable pub format_usdc : Text → Text
unfolding drop_zeros
format_usdc amount =
    let padded = pad_start 8 amount in
    take (length padded - 7) padded
    ++ (point_before (reverse (drop_zeros (reverse (drop (length padded - 7) padded))))
        ++ codes " USDC")

usdc_tests :
    (format_usdc (codes "1005000000") ≡ codes "100.5 USDC")
    × (format_usdc (codes "0") ≡ codes "0 USDC")
unfolding format_usdc
usdc_tests = (refl, refl)
