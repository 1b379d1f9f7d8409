-- ===== src/Console/PublicRecord.antt =====
-- An institution's latest proof, for anyone: apps/web/src/app/api/latest-proof/route.ts and
-- lib/proof-registry.ts, on the modelled SDK.
use solva.Prelude.{Bool, false, Option, none, some, ◌==◌, if◌then◌else◌, [], ◌∷◌}
use solva.Prelude.Text.{Text, codes, text_eq}
use solva.Prelude.Effect.{Eff, ret, ◌>>=◌, catching}
use solva.Sdk.{
  Thrown, orchestrator_error, chain_error, foreign, Network, testnet, mainnet, local, SolvaConfig,
}
use solva.Sdk.Orchestrator.{Platform}
use solva.Sdk.Registry.{Contract, ProofMeta}
use solva.Sdk.Client.{get_on_chain_latest_proof}
use solva.Oracle.{on_fresh}

pub record Variables : Type 0 where
  pub stellar_network : Option Text
  pub api_token : Option Text
  pub orchestrator_url : Option Text
  pub rpc_url : Option Text
  pub passphrase : Option Text

abbrev or_default : Option Text → Text → Text
or_default none otherwise = otherwise
or_default (some value) otherwise = value

named_network : Text → Network
named_network name =
    if text_eq name (codes "mainnet")
    then mainnet
    else (if text_eq name (codes "local") then local else testnet)

unfoldable pub network : Option Text → Network
unfolding named_network
network none = testnet
network (some name) = named_network name

unfoldable pub institution_config : Variables → Text → SolvaConfig
unfolding network
institution_config env institution = record {
  network = network env.stellar_network;
  tenant = institution;
  api_key = env.api_token;
  endpoints = some (record {
    orchestrator_url = some (or_default env.orchestrator_url (codes "http://localhost:8080"));
    rpc_url = some (or_default env.rpc_url (codes "https://soroban-testnet.stellar.org"));
    network_passphrase =
        some (or_default env.passphrase (codes "Test SDF Network ; September 2015"));
    contract_id = none;
  });
}

unfoldable pub is_unknown_institution : Thrown → Bool
is_unknown_institution (orchestrator_error message status) = status == 404
is_unknown_institution (chain_error message) = false
is_unknown_institution (foreign error) = false

-- The answers of the route: the proof, none with the note of what was thrown, or an error.
pub data LatestProof : Type 0 where
  latest : ProofMeta → LatestProof
  no_proof : Text → LatestProof
  unknown_institution : LatestProof
  institution_required : LatestProof

module _ {W : Type 0} (platform : Platform W) (contract : Contract W) (env : Variables)
    (show : Thrown → Text) where
  unfoldable pub institution_latest_proof : Text → Eff W Thrown ProofMeta
  unfolding institution_config
  institution_latest_proof institution =
      on_fresh (institution_config env institution) (get_on_chain_latest_proof platform contract)

  answer_for : Thrown → LatestProof
  unfolding is_unknown_institution
  answer_for error =
      if is_unknown_institution error then unknown_institution else no_proof (show error)

  proof_for : {E : Type 0} → Text → Eff W E LatestProof
  unfolding institution_latest_proof answer_for
  proof_for institution =
      catching (do proof ← institution_latest_proof institution; ret (latest proof))
        (λ error. ret (answer_for error))

  unfoldable pub get_latest : {E : Type 0} → Option Text → Eff W E LatestProof
  unfolding proof_for
  get_latest none = ret institution_required
  get_latest (some []) = ret institution_required
  get_latest (some (c ∷ institution)) = proof_for (c ∷ institution)
