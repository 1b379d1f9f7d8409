-- ===== src/Console/Passkey/Wallet.antt =====
-- The deployment of a wallet: apps/web/src/lib/passkey/wallet.ts and provision.ts.
pub mod Deployed
use solva.Prelude.{
  ℕ, zero, suc, Bool, true, false, List, [], ◌∷◌, Option, none, some, if◌then◌else◌,
}
use solva.Prelude.Text.{Text, codes}
use solva.Prelude.Effect.{Result, ok, err, Eff, ret, throw, ◌>>=◌, ◌>>◌, catching}
use solva.Console.Passkey.PublicKey.{Bytes}
use solva.Console.Passkey.Session.{Session, Platform, Module, get_session}

pub record DeployResult : Type 0 where
  pub wallet_address : Text
  pub deployed : Bool

-- `Secp256r1` with no expiration and no limits, kept.
pub record Secp256r1Signer : Type 0 where
  pub credential_id : Bytes
  pub public_key : Bytes

-- What the deployment uses of the network: the address of a deployer and a credential, the read of
-- a contract's instance, and the two steps of the generated client, for a wallet whose salt is the
-- credential's hash.
pub record Node (W : Type 0) : Type 0 where
  pub derive_wallet_address : Text → Bytes → Text
  pub get_contract_data : Text → Eff W Text (Unit {0})
  pub build_deploy : Session → Secp256r1Signer → Eff W Text Text
  pub sign_and_send : Text → Eff W Text (Unit {0})
  pub wait : ℕ → W → W

module _ {W : Type 0} (node : Node W) where
  unfoldable pub wallet_address_for : Session → Bytes → Text
  wallet_address_for session credential_id =
      node.derive_wallet_address session.public_key credential_id

  unfoldable pub contract_exists : {E : Type 0} → Text → Eff W E Bool
  contract_exists contract_id =
      catching (do node.get_contract_data contract_id; ret true) (λ error. ret false)

  -- The reads that are left, two seconds apart.
  unfoldable pub await_contract : ℕ → Text → Eff W Text DeployResult
  await_contract zero address =
      throw (codes "Wallet deployment has not confirmed yet. Testnet may be busy; try again.")
  await_contract (suc left) address =
      let later = await_contract left address in
      (do
        exists ← contract_exists address
        if exists
            then ret (record { wallet_address = address; deployed = true })
            else (λ w. later (node.wait 2000 w)))

  unfoldable pub send_deploy : Session → Bytes → Bytes → Text → Eff W Text DeployResult
  send_deploy session credential_id public_key address = do
    deploy_tx ←
        node.build_deploy session
          (record { credential_id = credential_id; public_key = public_key })
    catching (node.sign_and_send deploy_tx) (λ error. ret tt)
    await_contract 45 address

  unfoldable pub deploy_wallet : Session → Bytes → Bytes → Eff W Text DeployResult
  deploy_wallet session credential_id public_key = do
    exists ← contract_exists (wallet_address_for session credential_id)
    if exists
        then ret
            (record { wallet_address = wallet_address_for session credential_id; deployed = false })
        else send_deploy session credential_id public_key (wallet_address_for session credential_id)

pub record ProvisionResult : Type 0 where
  pub contract_address : Text
  pub deployed : Bool

module _ {W : Type 0} (platform : Platform W) (node : Node W) where
  -- A call outside the module's own state.
  outside : {A : Type 0} → Eff W Text A → Eff (Module W) Text A
  outside call kept = let (result, w) = call kept.world in (result, record kept { world = w })

  unfoldable pub provision_wallet : Bytes → Bytes → Eff (Module W) Text ProvisionResult
  unfolding outside get_session deploy_wallet
  provision_wallet credential_id public_key = do
    session ← get_session platform
    result ← outside (deploy_wallet node session credential_id public_key)
    ret (record { contract_address = result.wallet_address; deployed = result.deployed })
