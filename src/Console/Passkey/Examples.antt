-- ===== src/Console/Passkey/Examples.antt =====
-- Wallets and messages at concrete inputs: apps/web/src/lib/passkey.
use solva.Prelude.{
  ℕ, ◌+◌, ◌<◌, ◌≡◌, refl, Bool, true, false, List, [], ◌∷◌, Option, none, some, leb, if◌then◌else◌,
  arith, Bool-cases, inl, inr,
}
use solva.Prelude.Text.{Text, codes}
use solva.Prelude.Effect.{Result, ok, err}
use solva.Console.Passkey.Session.{Session, Platform, Module, get_session}
use solva.Console.Passkey.Wallet.{Node, wallet_address_for, contract_exists, deploy_wallet}
use solva.Console.Passkey.Wallet.Deployed.{ReadsWallets, waited, sent, deploy_wallet-found}
use solva.Console.Passkey.Errors.{describe_wallet_error}

-- The world is a clock: the wallet appears at 4.
abbrev visible : Text → ℕ → Bool
visible address w = leb 4 w

abbrev read_at : Bool → ℕ → Result Text (Unit {0}) × ℕ
read_at true w = (ok tt, w)
read_at false w = (err (codes "no contract"), w)

abbrev node : Node ℕ
node = record {
  derive_wallet_address = λ deployer credential_id. codes "C1";
  get_contract_data = λ address w. read_at (visible address w) w;
  build_deploy = λ session signer w. (ok (codes "tx"), w + 1);
  sign_and_send = λ deploy_tx w. (err (codes "pending"), w + 1);
  wait = λ n w. w + 1;
}

abbrev session : Session
session = record { keypair = codes "S1"; public_key = codes "G1" }

node-ReadsWallets : ReadsWallets node visible
unfolding ReadsWallets contract_exists
node-ReadsWallets address w = elim (Bool-cases (leb 4 w)) [ inl h ↦ simp h | inr h ↦ simp h ]

appears :
    visible (wallet_address_for node session []) (waited node 2 (sent node (codes "tx") 1)) ≡ true
unfolding waited sent
appears = refl

deploy_wallet-found_example :
    (u : ℕ) × (deploy_wallet node session [] [] 0
      ≡ (ok (record { wallet_address = wallet_address_for node session []; deployed = true }), u))
    × (deploy_wallet node session [] [] u ≡ (
      ok (record { wallet_address = wallet_address_for node session []; deployed = false }),
      u,
    ))
deploy_wallet-found_example =
    deploy_wallet-found node visible node-ReadsWallets session [] [] 0 1 (codes "tx") 2 refl refl
      (omega arith) appears

-- No account, and a friendbot that is down; the world counts the requests.
abbrev platform : Platform ℕ
platform = record {
  load = λ w. (ok none, w);
  save = λ keypair w. (ok tt, w);
  from_secret = λ secret. ok secret;
  random = λ w. (codes "S1", w);
  public_key = λ keypair. codes "G1";
  get_account = λ account w. (err (codes "404"), w + 1);
  friendbot = λ account w. (ok 503, w + 1);
  wait = λ n w. w;
}

abbrev started : Module ℕ
started = record { session = none; world = 0 }

session-failed : (get_session platform started).1 ≡ record {
  session = some (err (codes "Could not fund the deployer account via friendbot. Try again."));
  world = 4;
}
unfolding get_session
session-failed = refl

error-described : describe_wallet_error (codes "HostError: Error(Contract, #2) at") ≡ record {
  code = some 2;
  message = codes "This orchestrator key is already a signer on your wallet. You are all set.";
  already_exists = true;
}
unfolding describe_wallet_error solva.Prelude.Text.value
error-described = refl
