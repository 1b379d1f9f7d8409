-- ===== src/Console/Auth.antt =====
-- Signing in: apps/web/src/lib/auth.ts. The ceremony of a passkey, the random bytes, the storage and
-- the decoding of a name are parameters; the wallet is provisioned by the modelled code.
pub mod Possession
mod Examples
use solva.Prelude.{
  ℕ, ◌-◌, Bool, true, false, List, [], ◌∷◌, ◌++◌, Option, none, some, ltb, if◌then◌else◌, length,
  take, drop,
}
use solva.Prelude.Text.{Text, codes, join}
use solva.Prelude.Effect.{Result, ok, err, Eff, ret, throw, ◌>>=◌, ◌>>◌, catching}
use solva.Console.Passkey.PublicKey.{Bytes}
use solva.Console.Passkey.Support.{Browser, PasskeySupport, detect_passkey_support}
use solva.Console.Passkey.Wallet.{ProvisionResult}

pub record SmartWalletSession : Type 0 where
  pub contract_address : Text
  pub tenant : Text
  pub label : Text

pub data PasskeyPhase : Type 0 where
  checking registering authenticating provisioning : PasskeyPhase

pub record StoredWallet : Type 0 where
  pub credential_id_base64_url : Text
  pub contract_address : Text

pub record Passkey : Type 0 where
  pub credential_id : Bytes
  pub credential_id_base64_url : Text
  pub public_key : Bytes

-- What signing in uses: the phases it reports, the stored wallet of a tenant, the ceremonies, for
-- a credential or for the names of a new user, and `provisionWallet`.
pub record Ceremony (W : Type 0) : Type 0 where
  pub browser : W → Browser
  pub phase : PasskeyPhase → W → W
  pub load : Text → Eff W Text (Option StoredWallet)
  pub save : Text → StoredWallet → Eff W Text (Unit {0})
  pub random : W → Bytes × W
  pub sign : Bytes → Bytes → Eff W Text (Unit {0})
  pub create : (id name : Text) → Eff W Text Passkey
  pub provision : Bytes → Bytes → Eff W Text ProvisionResult
  pub from_base64_url : Text → Result Text Bytes

-- The provider's `session`, and the world.
pub record Provider (W : Type 0) : Type 0 where
  pub session : Option SmartWalletSession
  pub world : W

abbrev pub storage_key : Text → Text
storage_key tenant = codes "solva.passkey." ++ tenant

unfoldable pub short_address : Text → Text
short_address address =
    if ltb 10 (length address)
    then take 5 address ++ 0x2026 ∷ drop (length address - 4) address
    else address

abbrev reason_or : Option Text → Text
reason_or none = codes "Passkeys are not available on this device."
reason_or (some reason) = reason

abbrev pub tenant_or_default : Option Text → Text
tenant_or_default none = codes "demo-institution"
tenant_or_default (some tenant) = tenant

module _ {W : Type 0} (ceremony : Ceremony W) where
  unfoldable pub load_wallet : {E : Type 0} → Text → Eff W E (Option StoredWallet)
  load_wallet tenant = catching (ceremony.load (storage_key tenant)) (λ error. ret none)

  unfoldable pub save_wallet : {E : Type 0} → Text → StoredWallet → Eff W E (Unit {0})
  save_wallet tenant wallet = catching (ceremony.save (storage_key tenant) wallet) (λ error. ret tt)

  report : PasskeyPhase → Eff W Text (Unit {0})
  report phase w = (ok tt, ceremony.phase phase w)

  challenge : Eff W Text Bytes
  challenge w = let (bytes, v) = ceremony.random w in (ok bytes, v)

  decoded : Text → Eff W Text Bytes
  decoded name w = (ceremony.from_base64_url name, w)

  -- A returning operator: the address is the stored one.
  authenticate : StoredWallet → Eff W Text Text
  unfolding report challenge decoded
  authenticate existing = do
    report authenticating
    bytes ← challenge
    credential_id ← decoded existing.credential_id_base64_url
    ceremony.sign bytes credential_id
    ret existing.contract_address

  register : Text → Eff W Text Text
  unfolding report save_wallet
  register tenant = do
    report registering
    passkey ← ceremony.create (tenant ++ codes ":operator") (codes "operator@" ++ tenant)
    report provisioning
    provisioned ← ceremony.provision passkey.credential_id passkey.public_key
    save_wallet tenant (record {
      credential_id_base64_url = passkey.credential_id_base64_url;
      contract_address = provisioned.contract_address;
    })
    ret provisioned.contract_address

  wallet_of : Text → Option StoredWallet → Eff W Text Text
  unfolding authenticate register
  wallet_of tenant (some existing) = authenticate existing
  wallet_of tenant none = register tenant

  supported_wallet : Text → PasskeySupport → Eff W Text Text
  unfolding wallet_of load_wallet
  supported_wallet tenant support =
      if support.supported
      then (do existing ← load_wallet tenant; wallet_of tenant existing)
      else throw (reason_or support.reason)

  contract_of : Text → Eff W Text Text
  unfolding supported_wallet report
  contract_of tenant w =
      let v = ceremony.phase checking w in
      supported_wallet tenant (detect_passkey_support (ceremony.browser v)) v

  abbrev session_of : Text → Text → SmartWalletSession
  session_of tenant address = record {
    contract_address = address;
    tenant = tenant;
    label = short_address address;
  }

  -- The session is set where the ceremony ended well, and left as it was where it threw.
  signed_in :
      Option SmartWalletSession
      → Text
      → Result Text Text × W
      → Result Text SmartWalletSession × Provider W
  signed_in session tenant (ok address, w) = (
    ok (session_of tenant address),
    record { session = some (session_of tenant address); world = w },
  )
  signed_in session tenant (err error, w) = (err error, record { session = session; world = w })

  unfoldable pub sign_in : Option Text → Eff (Provider W) Text SmartWalletSession
  unfolding signed_in contract_of
  sign_in tenant provider =
      signed_in provider.session (tenant_or_default tenant)
        (contract_of (tenant_or_default tenant) provider.world)

unfoldable pub sign_out : {W E : Type 0} → Eff (Provider W) E (Unit {0})
sign_out provider = (ok tt, record provider { session = none })

unfoldable pub get_session : {W : Type 0} → Provider W → Option SmartWalletSession
get_session provider = provider.session
