-- ===== src/Website/OnchainRecord.antt =====
-- apps/website/src/lib/onchain-record.ts: the site's reads of the registry through the SDK, for an
-- orchestrator and a network node that the environment names.
use solva.Prelude.{ℕ, Bool, none, some}
use solva.Prelude.Text.{Text}
use solva.Prelude.Effect.{Eff, ret, ◌>>=◌}
use solva.Sdk.{Thrown, SolvaConfig, testnet}
use solva.Sdk.Orchestrator.{Platform}
use solva.Sdk.Registry.{Contract}
use solva.Sdk.Client.{get_on_chain_latest_proof, verify_inclusion, text}
use solva.Oracle.{on_fresh}

pub record OnChainRecord : Type 0 where
  pub reserves : Text
  pub liabilities : Text
  pub root_hash : Text
  pub timestamp : ℕ

-- `new Solva(…)` of `client`.
unfoldable pub client_config : Text → Text → Text → SolvaConfig
client_config orchestrator_url rpc_url tenant = record {
  network = testnet;
  tenant = tenant;
  endpoints = some (record {
    orchestrator_url = some orchestrator_url;
    rpc_url = some rpc_url;
    network_passphrase = none;
    contract_id = none;
  });
  api_key = none;
}

module _ {W : Type 0} (platform : Platform W) (contract : Contract W)
    (orchestrator_url rpc_url : Text) where
  unfoldable pub read_on_chain_record : Text → Eff W Thrown OnChainRecord
  unfolding client_config
  read_on_chain_record tenant = do
    proof ←
        on_fresh (client_config orchestrator_url rpc_url tenant)
          (get_on_chain_latest_proof platform contract)
    ret (record {
      reserves = proof.reserves_total;
      liabilities = proof.liabilities_total;
      root_hash = proof.root_hash;
      timestamp = proof.timestamp;
    })

  unfoldable pub check_inclusion_on_chain : Text → Text → Eff W Thrown Bool
  unfolding client_config
  check_inclusion_on_chain tenant ref = do
    result ←
        on_fresh (client_config orchestrator_url rpc_url tenant)
          (verify_inclusion platform contract (text ref))
    ret result.included
