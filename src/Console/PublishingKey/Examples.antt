-- ===== src/Console/PublishingKey/Examples.antt =====
-- A run of the card without an account to pay from, and the inputs that it takes.
use solva.Prelude.{◌≡◌, refl, ℕ, ◌+◌, true, false, none}
use solva.Prelude.Text.{codes, trim, trim_start}
use solva.Prelude.Effect.{ok, err}
use solva.Console.Passkey.Session.{Platform, Module}
use solva.Console.Passkey.Transaction.{Server, success, accepted}
use solva.Console.Passkey.Encoding.{void}
use solva.Console.Passkey.Signer.{simulation_error, SignerNetwork}
use solva.Console.PublishingKey.{Card, initial_statuses, looks_like_address, can_run, run_card}
use solva.Console.PublishingKey.Progress.{Shows, run_card-Shows}

abbrev platform : Platform ℕ
platform = record {
  load = λ w. (ok none, w);
  save = λ keypair w. (ok tt, w);
  from_secret = λ secret. ok secret;
  random = λ w. (codes "S1", w);
  public_key = λ keypair. codes "G1";
  get_account = λ account w. (ok tt, w);
  friendbot = λ account w. (ok 503, w + 1);
  wait = λ n w. w;
}

abbrev network : SignerNetwork (Module ℕ)
network = record {
  xdr = record {
    hash = λ b. b;
    utf8 = λ s. s;
    to_xdr = λ preimage. preimage.network_id;
    no_address = codes "address not set";
  };
  network_passphrase = codes "Test";
  decode_ed25519_public_key = λ address. ok address;
  signer_args = λ signer. ok void;
  get_account = λ account w. (ok account, w);
  build = λ account operation. codes "tx";
  func_of = λ tx. codes "add_signer";
  simulate_transaction = λ tx w. (ok (simulation_error (codes "Error(Contract, #2)")), w);
  get_latest_ledger = λ w. (ok 500, w);
}

abbrev server : Server (Module ℕ)
server = record {
  prepare_transaction = λ tx w. (ok tx, w);
  sign = λ keypair tx. tx;
  send_transaction = λ tx w. (ok (accepted (codes "h1")), w);
  get_transaction = λ hash w. (ok success, w);
  wait = λ n w. w;
}

abbrev card : Card
card = record {
  orchestrator = codes "GAAAAAAAAAAAAAAAAAAAAAAAAAAAAAAAAAAAAAAAAAAAAAAAAAAAAAA2";
  registry = codes "CAAAAAAAAAAAAAAAAAAAAAAAAAAAAAAAAAAAAAAAAAAAAAAAAAAAAAA2";
  statuses = initial_statuses;
  running = false;
  notice = none;
  tx_hash = none;
}

ready : can_run card ≡ true
unfolding can_run looks_like_address trim trim_start
ready = refl

run_card-Shows_example :
    Shows card
      (run_card platform network server
        (λ payload w. (err (codes "dismissed"), w))
        (codes "C1")
        card
        (record { session = none; world = 0 })).0
run_card-Shows_example =
    run_card-Shows platform network server (λ payload w. (err (codes "dismissed"), w)) (codes "C1")
      card (record { session = none; world = 0 })
