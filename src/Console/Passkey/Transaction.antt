-- ===== src/Console/Passkey/Transaction.antt =====
-- The submission of a transaction: `prepareSignSubmit` of apps/web/src/lib/passkey/tx.ts. A
-- transaction is the text that the network's library makes of it.
use solva.Prelude.{ℕ, zero, suc, ◌++◌}
use solva.Prelude.Text.{Text, codes}
use solva.Prelude.Effect.{Eff, ret, throw, ◌>>=◌}
use solva.Console.Passkey.Session.{Session}

pub data TransactionStatus : Type 0 where
  success failed not_found : TransactionStatus

-- The answer of `sendTransaction`: rejected with what is shown of it, or the hash.
pub data SendStatus : Type 0 where
  rejected : Text → SendStatus
  accepted : Text → SendStatus

pub record Server (W : Type 0) : Type 0 where
  pub prepare_transaction : Text → Eff W Text Text
  pub sign : Text → Text → Text
  pub send_transaction : Text → Eff W Text SendStatus
  pub get_transaction : Text → Eff W Text TransactionStatus
  pub wait : ℕ → W → W

module _ {W : Type 0} (server : Server W) where
  -- What one read decides, with the reads that are left.
  after_read : Text → Eff W Text Text → TransactionStatus → Eff W Text Text
  after_read hash later success = ret hash
  after_read hash later failed = throw (codes "the transaction failed on-chain")
  after_read hash later not_found = later

  unfoldable pub poll : ℕ → Text → Eff W Text Text
  unfolding after_read
  poll zero hash = throw (codes "the transaction did not settle in time")
  poll (suc left) hash =
      let later = poll left hash in
      (λ w.
        (do status ← server.get_transaction hash; after_read hash later status)
          (server.wait 2000 w))

  after_send : SendStatus → Eff W Text Text
  unfolding poll
  after_send (rejected shown) = throw (codes "submission rejected: " ++ shown)
  after_send (accepted hash) = poll 90 hash

  unfoldable pub prepare_sign_submit : Session → Text → Eff W Text Text
  unfolding after_send
  prepare_sign_submit session transaction = do
    ready ← server.prepare_transaction transaction
    sent ← server.send_transaction (server.sign session.keypair ready)
    after_send sent
