-- ===== src/Console/Passkey/Wallet/Deployed.antt =====
-- A wallet that appears is found: apps/web/src/lib/passkey/wallet.ts.
use solva.Prelude.{ℕ, zero, suc, ◌<◌, ◌≡◌, refl, Bool, true, false, inl, inr, Bool-cases, arith}
use solva.Prelude.Text.{Text}
use solva.Prelude.Effect.{Result, ok, err, or_else}
use solva.Console.Passkey.PublicKey.{Bytes}
use solva.Console.Passkey.Session.{Session}
use solva.Console.Passkey.Wallet.{
  DeployResult, Node, wallet_address_for, contract_exists, await_contract, send_deploy,
  deploy_wallet,
}

-- The read of a contract changes nothing, and throws exactly where there is none.
unfoldable pub ReadsWallets : {W : Type 0} → Node W → (Text → W → Bool) → Type 0
ReadsWallets {W = W} node visible =
    (address : Text) (w : W)
    → contract_exists node {E = Text} address w ≡ (ok (visible address w), w)

module _ {W : Type 0} (node : Node W) where
  -- The world after some waits of two seconds.
  unfoldable pub waited : ℕ → W → W
  waited zero w = w
  waited (suc n) w = waited n (node.wait 2000 w)

  -- The world behind the sending, which may have thrown.
  unfoldable pub sent : Text → W → W
  sent deploy_tx w = (node.sign_and_send deploy_tx w).1

module _ {W : Type 0} (node : Node W) (visible : Text → W → Bool)
    (reads : ReadsWallets node visible) where
  found : Text → DeployResult
  found address = record { wallet_address = address; deployed = true }

  await_contract-found :
      (left : ℕ) (address : Text) (n : ℕ) (w : W)
      → n < left
      → visible address (waited node n w) ≡ true
      → (v : W) × (await_contract node left address w ≡ (ok (found address), v))
        × (visible address v ≡ true)
  unfolding await_contract waited ReadsWallets found
  await_contract-found zero address n w h seen = absurd (omega arith)
  await_contract-found (suc left) address zero w h seen = (w, simp (reads address w, seen), seen)
  await_contract-found (suc left) address (suc n) w h seen = elim (Bool-cases (visible address w)) [
    | inl there ↦ (w, simp (reads address w, there), there)
    | inr away ↦
        let (v, result, there) =
          await_contract-found left address n (node.wait 2000 w) (omega arith) seen in
        (v, rw (reads address w, away) result, there)
  ]

  or_else-sent :
      (answer : Result Text (Unit {0}) × W)
      → or_else {F = Text} answer (λ error v. (ok tt, v)) ≡ (ok tt, answer.1)
  or_else-sent (ok done, w) = refl
  or_else-sent (err error, w) = refl

  -- Where reads change nothing and see exactly what is there: a wallet that is not there yet, for
  -- which a transaction can be made, is reported as deployed if it appears within the first 44
  -- waits behind the sending, even where the sending threw; and asking for it again then reports
  -- it as there before, and does nothing.
  pub deploy_wallet-found :
      (session : Session) (credential_id public_key : Bytes) (w v : W) (deploy_tx : Text) (n : ℕ)
      → visible (wallet_address_for node session credential_id) w ≡ false
      → node.build_deploy session
          (record { credential_id = credential_id; public_key = public_key })
          w
        ≡ (ok deploy_tx, v)
      → n < 45
      → visible
          (wallet_address_for node session credential_id)
          (waited node n (sent node deploy_tx v))
        ≡ true
      → (u : W) × (deploy_wallet node session credential_id public_key w ≡ (
        ok (record {
          wallet_address = wallet_address_for node session credential_id;
          deployed = true;
        }),
        u,
      ))
        × (deploy_wallet node session credential_id public_key u ≡ (
          ok (record {
            wallet_address = wallet_address_for node session credential_id;
            deployed = false;
          }),
          u,
        ))
  unfolding deploy_wallet send_deploy sent found ReadsWallets
  deploy_wallet-found session credential_id public_key w v deploy_tx n away built soon seen =
      let address = wallet_address_for node session credential_id in
      let (u, result, there) =
        await_contract-found 45 address n (sent node deploy_tx v) soon seen in
      let settled = or_else-sent (node.sign_and_send deploy_tx v) in
      (u, rw (reads address w, away) (simp (built, settled, result)), simp (reads address u, there))
