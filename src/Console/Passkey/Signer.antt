-- ===== src/Console/Passkey/Signer.antt =====
-- A signer for the orchestrator is added to a wallet: apps/web/src/lib/passkey/signer.ts, with
-- `buildTx` of tx.ts. The state is the caller's, which `on_phase` changes, and the world. The
-- network's library and its node are a parameter.
pub mod Rules
pub mod Approved
pub mod Phases
mod Examples
use solva.Prelude.{ℕ, ◌+◌, List, [], ◌∷◌, ◌++◌, Option, none, some}
use solva.Prelude.Text.{Text, codes}
use solva.Prelude.Effect.{Result, ok, err, Eff, ret, throw, ◌>>=◌, ◌>>◌}
use solva.Console.Passkey.PublicKey.{Bytes}
use solva.Console.Passkey.Ceremony.{SignWithPasskeyResult}
use solva.Console.Passkey.Session.{Session}
use solva.Console.Passkey.Transaction.{Server, prepare_sign_submit}
use solva.Console.Passkey.Encoding.{
  ScVal, AuthEntry, Xdr, passkey_kit_signature, payload_for_auth_entry, attach_signature_to_entry,
  set_expiration,
}

pub data AddSignerPhase : Type 0 where
  simulate sign submit : AddSignerPhase

-- An Ed25519 signer with no expiration, kept in persistent storage: its key, and the contracts
-- that it may authorize calls of, each with no further signer.
pub record Signer : Type 0 where
  pub key : Bytes
  pub expiration : Option ℕ
  pub limits : List Text

pub data Operation : Type 0 where
  call : (contract function : Text) (args : ScVal) → Operation
  invoke_host_function : (func : Text) (auth : List AuthEntry) → Operation

-- What a simulation gives: an error, or the entries to authorize.
pub data Simulation : Type 0 where
  simulation_error : Text → Simulation
  simulated : List AuthEntry → Simulation

pub record SignerNetwork (W : Type 0) : Type 0 where
  pub xdr : Xdr
  pub network_passphrase : Text
  pub decode_ed25519_public_key : Text → Result Text Bytes
  pub signer_args : Signer → Result Text ScVal
  -- The account behind a transaction, and the transaction of one operation.
  pub get_account : Text → Eff W Text Text
  pub build : Text → Operation → Text
  -- The function of the transaction's first operation.
  pub func_of : Text → Text
  pub simulate_transaction : Text → Eff W Text Simulation
  pub get_latest_ledger : Eff W Text ℕ

pub record AddOrchestratorSignerArgs (W : Type 0) : Type 0 where
  pub session : Session
  pub wallet_address : Text
  pub orchestrator_address : Text
  pub registry_contract : Text
  pub sign_payload : Bytes → Eff W Text SignWithPasskeyResult

unfoldable pub orchestrator_signer : Bytes → Text → Signer
orchestrator_signer pub_key registry_contract = record {
  key = pub_key;
  expiration = none;
  limits = registry_contract ∷ [];
}

unfoldable pub entry_of : Simulation → Result Text AuthEntry
entry_of (simulation_error error) = err (codes "simulation failed: " ++ error)
entry_of (simulated []) = err (codes "simulation returned no auth entry for the wallet")
entry_of (simulated (first ∷ others)) = ok first

unfoldable pub signature_of : SignWithPasskeyResult → ScVal
unfolding passkey_kit_signature
signature_of assertion = passkey_kit_signature (record {
  credential_id = assertion.credential_id;
  authenticator_data = assertion.authenticator_data;
  client_data_json = assertion.client_data_json;
  signature = assertion.signature;
})

module _ {R W : Type 0} where
  -- A call that leaves the caller's state alone, a result, and a report of a phase.
  unfoldable pub outside : {A : Type 0} → Eff W Text A → Eff (R × W) Text A
  outside m (r, w) = let (x, v) = m w in (x, (r, v))

  unfoldable pub of_result : {A : Type 0} → Result Text A → Eff (R × W) Text A
  of_result x s = (x, s)

  unfoldable pub tell : (AddSignerPhase → R → R) → AddSignerPhase → Eff (R × W) Text (Unit {0})
  tell on_phase phase (r, w) = (ok tt, (on_phase phase r, w))

module _ {R W : Type 0} (network : SignerNetwork W) (server : Server W)
    (on_phase : AddSignerPhase → R → R) (args : AddOrchestratorSignerArgs W) where
  unfoldable pub build_tx : Operation → Eff W Text Text
  build_tx operation = do
    account ← network.get_account args.session.public_key
    ret (network.build account operation)

  -- From the signature on.
  unfoldable pub submit_signed : Text → AuthEntry → Eff (R × W) Text Text
  unfolding outside tell build_tx
  submit_signed unsigned_tx signed = do
    signed_tx ←
        outside (build_tx (invoke_host_function (network.func_of unsigned_tx) (signed ∷ [])))
    tell on_phase submit
    outside (prepare_sign_submit server args.session signed_tx)

  -- The passkey's part, for an entry that has its expiration.
  unfoldable pub approve : Text → AuthEntry → Eff (R × W) Text Text
  unfolding outside tell of_result submit_signed
  approve unsigned_tx ready = do
    payload ← of_result (payload_for_auth_entry network.xdr ready network.network_passphrase)
    tell on_phase sign
    assertion ← outside (args.sign_payload payload)
    signed ← of_result (attach_signature_to_entry network.xdr (signature_of assertion) ready)
    submit_signed unsigned_tx signed

  -- From the simulation on.
  unfoldable pub authorize : Text → Eff (R × W) Text Text
  unfolding outside tell of_result approve
  authorize unsigned_tx = do
    tell on_phase simulate
    sim ← outside (network.simulate_transaction unsigned_tx)
    auth ← of_result (entry_of sim)
    sequence ← outside network.get_latest_ledger
    ready ← of_result (set_expiration network.xdr (sequence + 100) auth)
    approve unsigned_tx ready

  unfoldable pub add_orchestrator_signer : Eff (R × W) Text Text
  unfolding outside of_result build_tx authorize
  add_orchestrator_signer = do
    pub_key ← of_result (network.decode_ed25519_public_key args.orchestrator_address)
    call_args ← of_result (network.signer_args (orchestrator_signer pub_key args.registry_contract))
    unsigned_tx ← outside (build_tx (call args.wallet_address (codes "add_signer") call_args))
    authorize unsigned_tx
