-- ===== src/Console/Passkey/Signer/Examples.antt =====
-- A signer is added at a concrete network, whose caller keeps the phases that were reported.
use solva.Prelude.{◌≡◌, refl, ℕ, ◌+◌, List, [], ◌∷◌}
use solva.Prelude.Text.{codes}
use solva.Prelude.Effect.{ok}
use solva.Console.Passkey.Ceremony.{SignWithPasskeyResult}
use solva.Console.Passkey.Transaction.{Server, success, accepted, prepare_sign_submit, poll}
use solva.Console.Passkey.Encoding.{
  void, AuthEntry, of_address, Xdr, payload_for_auth_entry, payload_of, authorization_payload,
  attach_signature_to_entry, set_expiration, change_address,
}
use solva.Console.Passkey.Signer.{
  AddSignerPhase, simulate, sign, submit, simulated, SignerNetwork, AddOrchestratorSignerArgs,
  entry_of, outside, of_result, tell, build_tx, submit_signed, approve, authorize,
  add_orchestrator_signer,
}
use solva.Console.Passkey.Signer.Approved.{Scoped, add_orchestrator_signer-approved}

abbrev xdr : Xdr
xdr = record {
  hash = λ b. b;
  utf8 = λ s. s;
  to_xdr = λ preimage. preimage.signature_expiration_ledger ∷ preimage.network_id;
  no_address = codes "address not set";
}

abbrev wallet_entry : AuthEntry
wallet_entry = record {
  credentials = of_address (record {
    address = codes "C1";
    nonce = codes "7";
    signature_expiration_ledger = 0;
    signature = void;
  });
  root_invocation = codes "add_signer";
}

-- The world counts the reads of the ledger.
abbrev network : SignerNetwork ℕ
network = record {
  xdr = xdr;
  network_passphrase = codes "Test";
  decode_ed25519_public_key = λ address. ok address;
  signer_args = λ signer. ok void;
  get_account = λ account w. (ok account, w);
  build = λ account operation. codes "tx";
  func_of = λ tx. codes "add_signer";
  simulate_transaction = λ tx w. (ok (simulated (wallet_entry ∷ [])), w);
  get_latest_ledger = λ w. (ok 500, w + 1);
}

abbrev server : Server ℕ
server = record {
  prepare_transaction = λ tx w. (ok tx, w);
  sign = λ keypair tx. tx;
  send_transaction = λ tx w. (ok (accepted (codes "h1")), w);
  get_transaction = λ hash w. (ok success, w);
  wait = λ n w. w;
}

abbrev assertion : SignWithPasskeyResult
assertion = record {
  credential_id = 1 ∷ [];
  credential_id_base64_url = codes "AQ";
  authenticator_data = 2 ∷ [];
  client_data_json = 3 ∷ [];
  signature = 4 ∷ [];
  signed_digest = 5 ∷ [];
}

abbrev args : AddOrchestratorSignerArgs ℕ
args = record {
  session = record { keypair = codes "S1"; public_key = codes "G1" };
  wallet_address = codes "C1";
  orchestrator_address = codes "G2";
  registry_contract = codes "C2";
  sign_payload = λ payload w. (ok assertion, w);
}

abbrev noted : AddSignerPhase → List AddSignerPhase → List AddSignerPhase
noted phase phases = phase ∷ phases

added :
    add_orchestrator_signer network server noted args ([], 0)
    ≡ (ok (codes "h1"), (submit ∷ sign ∷ simulate ∷ [], 1))
unfolding add_orchestrator_signer authorize approve submit_signed build_tx outside of_result tell
    entry_of prepare_sign_submit poll payload_for_auth_entry payload_of authorization_payload
    attach_signature_to_entry set_expiration change_address
added = refl

add_orchestrator_signer-approved_example : Scoped network server noted args (codes "h1") 1
add_orchestrator_signer-approved_example =
    add_orchestrator_signer-approved network server noted args [] 0 (codes "h1")
      (submit ∷ sign ∷ simulate ∷ [], 1) added
