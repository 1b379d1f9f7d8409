-- ===== src/Sdk/Chain.antt =====
-- packages/sdk-ts/src/chain-client.ts: reads of the proof-registry contract.
use solva.Prelude.{[], ◌∷◌}
use solva.Prelude.Text.{codes}
use solva.Prelude.Effect.{Result, ok, err, Eff, ret, throw, ◌>>=◌, catching}
use solva.SharedTypes.{InclusionRef, InclusionResult}
use solva.Sdk.{Thrown, chain_error}
use solva.Sdk.Registry.{
  ContractClientOptions, Contract, ProofMeta, registry_latest_proof, registry_verify_inclusion,
}

-- A `ChainClient` is known by the options of its registry client.
pub record ChainClient : Type 0 where
  pub registry : ContractClientOptions

-- The constructor: an empty contract id is refused.
unfoldable pub new_chain_client : ContractClientOptions → Result Thrown ChainClient
new_chain_client options = elim options.contract_id [
  | [] ↦ err (chain_error (codes "no contractId configured for chain reads"))
  | _ ∷ _ ↦ ok (record { registry = options })
]

module _ {W : Type 0} (contract : Contract W) (client : ChainClient) where
  unfoldable pub chain_verify_inclusion : InclusionRef → Eff W Thrown InclusionResult
  chain_verify_inclusion ref =
      catching
        (do
          included ← registry_verify_inclusion contract client.registry ref
          ret (record { included = included; proof_id = ref.proof_id }))
        (λ cause. throw (chain_error (codes "verify_inclusion call failed")))

  unfoldable pub chain_latest_proof : Eff W Thrown ProofMeta
  chain_latest_proof =
      catching (registry_latest_proof contract client.registry)
        (λ cause. throw (chain_error (codes "get_latest_proof call failed")))
