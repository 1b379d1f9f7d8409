-- ===== src/Sdk/Client.antt =====
-- packages/sdk-ts/src/solva.ts: the `Solva` object. Its field `chain` is set by the first read that
-- needs it and stays; the other fields are fixed when it is built. Awaited calls of one object are
-- run one after the other here.
pub mod Reads
pub mod Named
pub mod History
use solva.Prelude.{◌≡◌, Bool, List, [], ◌∷◌, Option, none, some}
use solva.Prelude.Text.{Text}
use solva.Prelude.Effect.{Result, ok, err, Eff, ret, throw, ◌>>=◌}
use solva.SharedTypes.{Proof, InclusionRef, InclusionResult}
use solva.Sdk.{Thrown, NetworkConfig, SolvaConfig, resolve_config}
use solva.Sdk.Orchestrator
use solva.Sdk.Orchestrator.{Platform, Orchestrator, ContractDto}
use solva.Sdk.Registry.{Contract, ProofMeta}
use solva.Sdk.Chain.{ChainClient, new_chain_client, chain_verify_inclusion, chain_latest_proof}

pub record Solva : Type 0 where
  pub orchestrator : Orchestrator
  pub endpoints : NetworkConfig
  pub chain : Option ChainClient

-- The constructor.
unfoldable pub new_solva : SolvaConfig → Solva
unfolding resolve_config
new_solva config = record {
  orchestrator = record {
    base_url = (resolve_config config).endpoints.orchestrator_url;
    tenant = (resolve_config config).tenant;
    api_key = (resolve_config config).api_key;
  };
  endpoints = (resolve_config config).endpoints;
  chain = none;
}

-- The world and the object.
pub record Session (W : Type 0) : Type 0 where
  pub world : W
  pub solva : Solva

-- A method's argument: a reference to resolve, or one in full.
pub data RefArg : Type 0 where
  text : Text → RefArg
  full : InclusionRef → RefArg

module _ {W : Type 0} (platform : Platform W) (contract : Contract W) where
  abbrev pub beside {ℓ} : {A : Type ℓ} → Solva → Result Thrown A × W → Result Thrown A × Session W
  beside s (r, w) = (r, record { world = w; solva = s })

  -- A call that leaves the object alone.
  abbrev pub on_world {ℓ} : {A : Type ℓ} → (Solva → Eff W Thrown A) → Eff (Session W) Thrown A
  on_world call s = beside s.solva (call s.solva s.world)

  contract_id_of : Solva → Eff W Thrown Text
  contract_id_of s = elim s.endpoints.contract_id [
    | [] ↦ do dto ← Orchestrator.get_tenant_contract platform s.orchestrator; ret dto.contract_id
    | c ∷ id ↦ ret (c ∷ id)
  ]

  -- The tail of `resolveChain`: build the client and keep it.
  keep_chain : Text → Eff (Session W) Thrown ChainClient
  keep_chain id s =
      elim (new_chain_client (record {
        contract_id = id;
        rpc_url = s.solva.endpoints.rpc_url;
        network_passphrase = s.solva.endpoints.network_passphrase;
      })) [
        | ok c ↦ (ok c, record s { solva = record (s.solva) { chain = some c } })
        | err e ↦ (err e, s)
      ]

  build_chain : Eff (Session W) Thrown ChainClient
  build_chain = do id ← on_world contract_id_of; keep_chain id

  unfoldable pub resolve_chain : Eff (Session W) Thrown ChainClient
  unfolding build_chain keep_chain contract_id_of
  resolve_chain s = elim s.solva.chain [ some c ↦ (ok c, s) | none ↦ build_chain s ]

  pub connect_source : Text → Eff (Session W) Thrown Text
  connect_source config = on_world (λ s. Orchestrator.connect_source platform s.orchestrator config)

  pub run_proof_cycle : Eff (Session W) Thrown Text
  run_proof_cycle = on_world (λ s. Orchestrator.run_proof_cycle platform s.orchestrator)

  unfoldable pub get_latest_proof : Eff (Session W) Thrown Proof
  get_latest_proof = on_world (λ s. Orchestrator.get_latest_proof platform s.orchestrator)

  pub get_proof : Text → Eff (Session W) Thrown Proof
  get_proof id = on_world (λ s. Orchestrator.get_proof platform s.orchestrator id)

  unfoldable pub get_on_chain_latest_proof : Eff (Session W) Thrown ProofMeta
  get_on_chain_latest_proof = do
    chain ← resolve_chain
    on_world (λ _. chain_latest_proof contract chain)

  resolve_ref : RefArg → Eff (Session W) Thrown InclusionRef
  resolve_ref (full ref) = ret ref
  resolve_ref (text ref) =
      on_world (λ s. Orchestrator.get_inclusion_ref platform s.orchestrator ref)

  pub verify_inclusion : RefArg → Eff (Session W) Thrown InclusionResult
  unfolding resolve_ref
  verify_inclusion arg = do
    resolved ← resolve_ref arg
    chain ← resolve_chain
    on_world (λ _. chain_verify_inclusion contract chain resolved)
