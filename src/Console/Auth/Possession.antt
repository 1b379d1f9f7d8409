-- ===== src/Console/Auth/Possession.antt =====
-- What a session rests on: apps/web/src/lib/auth.ts.
use solva.Prelude.{◌≡◌, refl, Option, none, some, ◌⊎◌, inl, inr, Bool-cases, ◌++◌}
use solva.Prelude.Text.{Text, codes}
use solva.Prelude.Effect.{Result, ok, err, and_then}
use solva.Console.Passkey.PublicKey.{Bytes}
use solva.Console.Passkey.Support.{PasskeySupport, detect_passkey_support}
use solva.Console.Passkey.Wallet.{ProvisionResult}
use solva.Console.Auth.{
  SmartWalletSession, StoredWallet, Passkey, Ceremony, Provider, authenticating, registering,
  provisioning, checking, load_wallet, save_wallet, report, challenge, decoded, authenticate,
  register, wallet_of, supported_wallet, contract_of, signed_in, tenant_or_default, sign_in,
}

module _ {W : Type 0} (ceremony : Ceremony W) where
  -- A stored wallet of the tenant, whose passkey signed a challenge.
  pub Returns : Text → Text → Type 0
  Returns tenant address =
      (existing : StoredWallet) × (credential_id bytes : Bytes) × (t u v w : W) × (load_wallet
          ceremony {E = Text} tenant t
        ≡ (ok (some existing), u))
      × (ceremony.from_base64_url existing.credential_id_base64_url ≡ ok credential_id)
      × (ceremony.sign bytes credential_id v ≡ (ok tt, w))
      × (existing.contract_address ≡ address)

  -- A passkey that was made for the tenant, and the wallet provisioned for it.
  pub Registers : Text → Text → Type 0
  Registers tenant address =
      (passkey : Passkey) × (made : ProvisionResult) × (t u v w : W) × (ceremony.create
          (tenant ++ codes ":operator") (codes "operator@" ++ tenant) t
        ≡ (ok passkey, u))
      × (ceremony.provision passkey.credential_id passkey.public_key v ≡ (ok made, w))
      × (made.contract_address ≡ address)

  -- What an address rests on, where there is one.
  Rests : Text → Result Text Text × W → Type 0
  Rests tenant (ok address, w) = Returns tenant address ⊎ Registers tenant address
  Rests tenant (err error, w) = Unit

  signed-Rests :
      (tenant : Text) (existing : StoredWallet) (credential_id bytes : Bytes) (t u v : W)
      (answer : Result Text (Unit {0}) × W)
      → load_wallet ceremony {E = Text} tenant t ≡ (ok (some existing), u)
      → ceremony.from_base64_url existing.credential_id_base64_url ≡ ok credential_id
      → ceremony.sign bytes credential_id v ≡ answer
      → Rests tenant (and_then answer (λ done w. (ok existing.contract_address, w)))
  unfolding Rests Returns
  signed-Rests tenant existing credential_id bytes t u v (ok done, w) loaded named signed =
      inl (existing, credential_id, bytes, t, u, v, w, loaded, named, signed, refl)
  signed-Rests tenant existing credential_id bytes t u v (err error, w) loaded named signed = tt

  decoded-Rests :
      (tenant : Text) (existing : StoredWallet) (bytes : Bytes) (t u v : W)
      (name : Result Text Bytes)
      → load_wallet ceremony {E = Text} tenant t ≡ (ok (some existing), u)
      → ceremony.from_base64_url existing.credential_id_base64_url ≡ name
      → Rests tenant (
          and_then
            (name, v)
            (λ credential_id x.
              and_then
                (ceremony.sign bytes credential_id x)
                (λ done w. (ok existing.contract_address, w))))
  unfolding Rests
  decoded-Rests tenant existing bytes t u v (ok credential_id) loaded named =
      signed-Rests tenant existing credential_id bytes t u v (ceremony.sign bytes credential_id v)
        loaded named refl
  decoded-Rests tenant existing bytes t u v (err error) loaded named = tt

  saved-Rests :
      (tenant address : Text) (answer : Result Text (Unit {0}) × W)
      → Registers tenant address
      → Rests tenant (and_then answer (λ done w. (ok address, w)))
  unfolding Rests
  saved-Rests tenant address (ok done, w) made = inr made
  saved-Rests tenant address (err error, w) made = tt

  provisioned-Rests :
      (tenant : Text) (passkey : Passkey) (t u v : W) (answer : Result Text ProvisionResult × W)
      → ceremony.create (tenant ++ codes ":operator") (codes "operator@" ++ tenant) t
        ≡ (ok passkey, u)
      → ceremony.provision passkey.credential_id passkey.public_key v ≡ answer
      → Rests tenant (
          and_then answer (λ made x.
            and_then
              (save_wallet ceremony {E = Text} tenant
                (record {
                  credential_id_base64_url = passkey.credential_id_base64_url;
                  contract_address = made.contract_address;
                })
                x)
              (λ done w. (ok made.contract_address, w))))
  unfolding Rests Registers
  provisioned-Rests tenant passkey t u v (ok made, w) created provisioned =
      saved-Rests tenant made.contract_address
        (save_wallet ceremony {E = Text} tenant
          (record {
            credential_id_base64_url = passkey.credential_id_base64_url;
            contract_address = made.contract_address;
          })
          w)
        (passkey, made, t, u, v, w, created, provisioned, refl)
  provisioned-Rests tenant passkey t u v (err error, w) created provisioned = tt

  created-Rests :
      (tenant : Text) (t : W) (answer : Result Text Passkey × W)
      → ceremony.create (tenant ++ codes ":operator") (codes "operator@" ++ tenant) t ≡ answer
      → Rests tenant (
          and_then answer (λ passkey u.
            and_then
              (ceremony.provision passkey.credential_id passkey.public_key
                (ceremony.phase provisioning u))
              (λ made x.
                and_then
                  (save_wallet ceremony {E = Text} tenant
                    (record {
                      credential_id_base64_url = passkey.credential_id_base64_url;
                      contract_address = made.contract_address;
                    })
                    x)
                  (λ done w. (ok made.contract_address, w)))))
  unfolding Rests
  created-Rests tenant t (ok passkey, u) created =
      provisioned-Rests tenant passkey t u (ceremony.phase provisioning u) _ created refl
  created-Rests tenant t (err error, u) created = tt

  wallet_of-Rests :
      (tenant : Text) (t : W) (stored : Result Text (Option StoredWallet) × W)
      → load_wallet ceremony {E = Text} tenant t ≡ stored
      → Rests tenant (and_then stored (wallet_of ceremony tenant))
  unfolding Rests wallet_of authenticate register report challenge decoded
  wallet_of-Rests tenant t (ok (some existing), u) loaded =
      let drawn = ceremony.random (ceremony.phase authenticating u) in
      decoded-Rests tenant existing drawn.0 t u drawn.1 _ loaded refl
  wallet_of-Rests tenant t (ok none, u) loaded =
      created-Rests tenant (ceremony.phase registering u) _ refl
  wallet_of-Rests tenant t (err error, u) loaded = tt

  supported_wallet-Rests :
      (tenant : Text) (support : PasskeySupport) (w : W)
      → Rests tenant (supported_wallet ceremony tenant support w)
  unfolding Rests supported_wallet
  supported_wallet-Rests tenant support w = elim (Bool-cases support.supported) [
    | inl there ↦ rw there (wallet_of-Rests tenant w _ refl)
    | inr missing ↦ rw missing tt
  ]

  -- What a sign-in comes to: a session kept that rests on a passkey, or none anew.
  pub SignedIn :
      Text → Option SmartWalletSession → Result Text SmartWalletSession × Provider W → Type 0
  SignedIn tenant before (ok session, after) =
      (after.session ≡ some session)
      × (session.tenant ≡ tenant)
      × (Returns tenant session.contract_address ⊎ Registers tenant session.contract_address)
  SignedIn tenant before (err error, after) = after.session ≡ before

  signed_in-SignedIn :
      (before : Option SmartWalletSession) (tenant : Text) (run : Result Text Text × W)
      → Rests tenant run
      → SignedIn tenant before (signed_in ceremony before tenant run)
  unfolding Rests SignedIn signed_in
  signed_in-SignedIn before tenant (ok address, w) rests = (refl, refl, rests)
  signed_in-SignedIn before tenant (err error, w) rests = refl

  -- A session that signing in returns is the one kept and is of the tenant, and its address is
  -- that of a stored wallet whose passkey signed a challenge, or of a wallet provisioned for a
  -- passkey made for that tenant; where signing in throws, the session stays as it was.
  pub sign_in-SignedIn :
      (tenant : Option Text) (provider : Provider W)
      → SignedIn (tenant_or_default tenant) provider.session (sign_in ceremony tenant provider)
  unfolding sign_in contract_of
  sign_in-SignedIn tenant provider =
      let w = ceremony.phase checking provider.world in
      signed_in-SignedIn provider.session (tenant_or_default tenant) _ (
        supported_wallet-Rests (tenant_or_default tenant)
          (detect_passkey_support (ceremony.browser w)) w)
