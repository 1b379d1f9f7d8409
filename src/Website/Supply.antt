-- ===== src/Website/Supply.antt =====
-- apps/website/src/lib/stellar-supply.ts: the supply of the watched assets, read from Horizon and
-- kept for five minutes. The clock, `fetch` and the parsers of the bodies are parameters; the
-- requests that the code makes side by side run one after the other here.
pub mod Cached
mod Examples
use solva.Prelude.{
  ℕ, ◌+◌, ◌-◌, ◌*◌, Bool, true, false, ◌&&◌, List, [], ◌∷◌, ◌++◌, Option, none, some, leb, ltb,
  ◌==◌, if◌then◌else◌,
}
use solva.Prelude.Text.{Text, codes, is_truthy, join, is_digit}
use solva.Prelude.Effect.{Result, ok, err, Eff}
use solva.Website.Amount.{parse_amount, format_amount, before_point}
use solva.Prelude.Int.{ℤ}
use solva.Website.Amount

pub record StellarAsset : Type 0 where
  pub code : Text
  pub issuer : Text

pub record AssetSupply : Type 0 where
  pub asset : StellarAsset
  pub supply : ℕ
  pub holders : ℕ

pub record SupplySnapshot : Type 0 where
  pub rows : List AssetSupply
  pub ledger : ℕ
  pub closed_at : Text

pub record HorizonAssetRecord : Type 0 where
  pub authorized : Option Text
  pub authorized_to_maintain : Option Text
  pub claimable_balances_amount : Option Text
  pub liquidity_pools_amount : Option Text
  pub contracts_amount : Option Text
  pub authorized_accounts : Option ℕ

pub record HorizonLedgerRecord : Type 0 where
  pub sequence : Option ℕ
  pub closed_at : Option Text

pub record HorizonResponse : Type 0 where
  pub status : ℕ
  pub body : Option Text

-- The world: a clock in milliseconds, `fetch`, and what a body's first record is; a body that is no
-- JSON is an error, one without a record is none.
pub record Horizon (W : Type 0) : Type 0 where
  pub url : Text
  pub now : W → ℕ × W
  pub fetch : Text → Eff W Text HorizonResponse
  pub asset_record : Text → Result Text (Option HorizonAssetRecord)
  pub ledger_record : Text → Result Text (Option HorizonLedgerRecord)

-- The part before the point; an amount has seven decimals.
unfoldable pub whole_units : ℤ → Text
whole_units amount = before_point (format_amount amount 7)

-- `cached`: the time and the snapshot.
abbrev pub Cache : Type 0
Cache = Option (ℕ × SupplySnapshot)

unfoldable pub ttl_ms : ℕ
ttl_ms = 5 * 60 * 1000

abbrev or_zero : Option ℕ → ℕ
or_zero none = 0
or_zero (some n) = n

-- Amounts of Stellar have seven decimals.
unfoldable pub units : Option Text → ℕ
units none = 0
units (some value) = if is_truthy value then or_zero (parse_amount value 7) else 0

unfoldable pub supply_from_record : HorizonAssetRecord → ℕ
unfolding units
supply_from_record r =
    units r.authorized
    + units r.authorized_to_maintain
    + units r.claimable_balances_amount
    + units r.liquidity_pools_amount
    + units r.contracts_amount

parsed {ℓ} : {A : Type ℓ} → (Text → Result Text (Option A)) → Option Text → Option A
parsed parse none = none
parsed parse (some t) = elim (parse t) [ ok found ↦ found | err e ↦ none ]

json_of {ℓ} : {A : Type ℓ} → (Text → Result Text (Option A)) → HorizonResponse → Option A
unfolding parsed
json_of parse res = if leb 200 res.status && ltb res.status 300 then parsed parse res.body else none

-- The `catch` of `getJson` gives null too.
json_or_none {ℓ} :
    {A : Type ℓ} → (Text → Result Text (Option A)) → Result Text HorizonResponse → Option A
unfolding json_of
json_or_none parse (ok res) = json_of parse res
json_or_none parse (err e) = none

module _ {W : Type 0} (horizon : Horizon W) where
  -- `getJson`, with the record that its callers take from the body.
  unfoldable pub get_json {ℓ} :
      {A : Type ℓ} → (Text → Result Text (Option A)) → Text → W → Option A × W
  unfolding json_or_none
  get_json parse path w =
      let (answer, v) = horizon.fetch (horizon.url ++ path) w in (json_or_none parse answer, v)

  row_of : StellarAsset → Option HorizonAssetRecord × W → Option AssetSupply × W
  unfolding supply_from_record
  row_of asset (none, w) = (none, w)
  row_of asset (some r, w) = (
    some (record {
      asset = asset;
      supply = supply_from_record r;
      holders = or_zero r.authorized_accounts;
    }),
    w,
  )

  unfoldable pub read_asset : StellarAsset → W → Option AssetSupply × W
  unfolding get_json row_of
  read_asset asset w = row_of asset (
      get_json horizon.asset_record
        (join
          (codes "/assets?asset_code=" ∷ asset.code ∷ codes "&asset_issuer=" ∷ asset.issuer ∷ []))
        w)

  closed : Option ℕ → Option Text → Option (ℕ × Text)
  closed (some n) (some t) = if (n == 0) then none else (if is_truthy t then some (n, t) else none)
  closed _ _ = none

  ledger_of : Option HorizonLedgerRecord × W → Option (ℕ × Text) × W
  unfolding closed
  ledger_of (none, w) = (none, w)
  ledger_of (some r, w) = (closed r.sequence r.closed_at, w)

  unfoldable pub read_ledger : W → Option (ℕ × Text) × W
  unfolding get_json ledger_of
  read_ledger w = ledger_of (get_json horizon.ledger_record (codes "/ledgers?order=desc&limit=1") w)

  keep_row : Option AssetSupply → List AssetSupply → List AssetSupply
  keep_row none rows = rows
  keep_row (some row) rows = row ∷ rows

  -- `rows.filter((row) => row !== null)` of every asset's answer.
  unfoldable pub read_rows : List StellarAsset → W → List AssetSupply × W
  unfolding read_asset keep_row
  read_rows [] w = ([], w)
  read_rows (asset ∷ assets) w =
      let (row, v) = read_asset asset w in
      let (rows, u) = read_rows assets v in (keep_row row rows, u)

  store : ℕ × W → SupplySnapshot → Option SupplySnapshot × Cache × W
  store (at, w) snapshot = (some snapshot, some (at, snapshot), w)

  -- From the answers on.
  unfoldable pub keep_snapshot :
      Option (ℕ × Text) → List AssetSupply → Cache → W → Option SupplySnapshot × Cache × W
  unfolding store
  keep_snapshot none rows cached w = (none, cached, w)
  keep_snapshot (some (ledger, closed_at)) [] cached w = (none, cached, w)
  keep_snapshot (some (ledger, closed_at)) (row ∷ rows) cached w =
      store (horizon.now w) (record { rows = row ∷ rows; ledger = ledger; closed_at = closed_at })

  unfoldable pub read_anew : List StellarAsset → Cache → W → Option SupplySnapshot × Cache × W
  unfolding keep_snapshot read_ledger read_rows
  read_anew assets cached w =
      let (ledger, v) = read_ledger w in
      let (rows, u) = read_rows assets v in keep_snapshot ledger rows cached u

  -- `Date.now() - cached.at < TTL_MS`.
  unfoldable pub reuse :
      ℕ × SupplySnapshot → List StellarAsset → ℕ × W → Option SupplySnapshot × Cache × W
  unfolding ttl_ms
  reuse (at, snapshot) assets (t, w) =
      if ltb (t - at) ttl_ms
      then (some snapshot, some (at, snapshot), w)
      else read_anew assets (some (at, snapshot)) w

  unfoldable pub read_supply_snapshot :
      List StellarAsset → Cache → W → Option SupplySnapshot × Cache × W
  unfolding reuse read_anew
  read_supply_snapshot assets none w = read_anew assets none w
  read_supply_snapshot assets (some entry) w = reuse entry assets (horizon.now w)
