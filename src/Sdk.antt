-- ===== src/Sdk.antt =====
-- packages/sdk-ts/src: the SDK's configuration (config.ts) and errors (errors.ts). The clients are
-- the modules below; a call of the network is a parameter that takes and returns the world.
pub mod Orchestrator
pub mod Registry
pub mod Chain
pub mod Client
pub mod Sample
mod Examples
use solva.Prelude.{ℕ, Option, none, some, []}
use solva.Prelude.Text.{Text, codes}

pub data Network : Type 0 where
  testnet mainnet local : Network

pub record NetworkConfig : Type 0 where
  pub orchestrator_url : Text
  pub rpc_url : Text
  pub network_passphrase : Text
  pub contract_id : Text

-- `Partial<NetworkConfig>`: a field that is not given is `none`.
pub record Overrides : Type 0 where
  pub orchestrator_url : Option Text
  pub rpc_url : Option Text
  pub network_passphrase : Option Text
  pub contract_id : Option Text

pub record SolvaConfig : Type 0 where
  pub network : Network
  pub tenant : Text
  pub endpoints : Option Overrides
  pub api_key : Option Text

abbrev public_network : Text
public_network = codes "Public Global Stellar Network ; September 2015"

abbrev pub test_network : Text
test_network = codes "Test SDF Network ; September 2015"

unfoldable pub defaults : Network → NetworkConfig
defaults testnet = record {
  orchestrator_url = codes "https://api.testnet.solva.dev";
  rpc_url = codes "https://soroban-testnet.stellar.org";
  network_passphrase = test_network;
  contract_id = [];
}
defaults mainnet = record {
  orchestrator_url = codes "https://api.solva.dev";
  rpc_url = codes "https://soroban.stellar.org";
  network_passphrase = public_network;
  contract_id = [];
}
defaults local = record {
  orchestrator_url = codes "http://localhost:8080";
  rpc_url = codes "http://localhost:8000/rpc";
  network_passphrase = test_network;
  contract_id = [];
}

abbrev pub or_default {ℓ} : {A : Type ℓ} → Option A → A → A
or_default none a = a
or_default (some b) a = b

-- `{ ...base, ...endpoints }`.
unfoldable pub override_with : NetworkConfig → Option Overrides → NetworkConfig
override_with base none = base
override_with base (some o) = record {
  orchestrator_url = or_default o.orchestrator_url base.orchestrator_url;
  rpc_url = or_default o.rpc_url base.rpc_url;
  network_passphrase = or_default o.network_passphrase base.network_passphrase;
  contract_id = or_default o.contract_id base.contract_id;
}

pub record ResolvedConfig : Type 0 where
  pub tenant : Text
  pub api_key : Option Text
  pub endpoints : NetworkConfig

unfoldable pub resolve_config : SolvaConfig → ResolvedConfig
unfolding defaults override_with
resolve_config config = record {
  tenant = config.tenant;
  api_key = config.api_key;
  endpoints = override_with (defaults config.network) config.endpoints;
}

-- What the SDK's calls throw. The last is no class of errors.ts: the value that `res.json()` or a
-- call below throws, which the SDK lets through.
pub data Thrown : Type 0 where
  orchestrator_error : Text → ℕ → Thrown
  chain_error : Text → Thrown
  foreign : Text → Thrown
