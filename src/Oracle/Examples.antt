-- ===== src/Oracle/Examples.antt =====
-- Runs of the oracle against the sample platform, and its theorems at them.
use solva.Prelude.{ℕ, ◌≡◌, ◌↔◌, refl, true, none, if◌then◌else◌}
use solva.Prelude.Text.{codes, print_nat}
use solva.Prelude.BigInt.{parse_bigint, print_bigint}
use solva.Prelude.Effect.{ok}
use solva.SharedTypes.{Proof, SolvencyResult, solvent, breach}
use solva.Sdk.{testnet, resolve_config, defaults}
use solva.Sdk.Orchestrator
use solva.Sdk.Orchestrator.{Orchestrator, request, get_tenant_contract}
use solva.Prelude.Int.{◌≤ℤ◌}
use solva.Oracle.Named.{IsMeant}
use solva.Sdk.Registry.{
  ContractClientOptions, GeneratedProofMeta, to_proof_meta, registry_latest_proof,
}
use solva.Sdk.Chain.{new_chain_client, chain_latest_proof}
use solva.Sdk.Client.{get_latest_proof, get_on_chain_latest_proof, new_solva, resolve_chain}
use solva.Sdk.Sample.{sample_platform, sample_contract, sample_proof}
use solva.Oracle.{
  SolvencyDeps, Environment, get_solvency, conclude, verdict, solvency_result,
  reserves_cover_liabilities, compare_totals, check_on_chain, get_anomalies, build_deps,
  chain_solvency_deps, sdk_config,
}
use solva.Oracle.Verdicts.{Covers, get_solvency_iff, solvent_on_chain}
use solva.Oracle.History.{IsBlank, get_anomalies-IsBlank}

abbrev env : Environment
env = record {
  solva_network = none;
  orchestrator_url = none;
  rpc_url = none;
  contract_id = none;
  api_token = none;
}

abbrev deps : SolvencyDeps ℕ
deps = record {
  latest_proof = λ tenant w. (ok sample_proof, w);
  verify_on_chain = λ tenant proof w. (ok true, w);
}

abbrev answer : SolvencyResult
answer = record {
  status = solvent;
  is_solvent = true;
  reserves_total = codes "1200";
  liabilities_total = codes "1000";
  proof_id = codes "7";
  verified_on_chain = true;
  as_of = 5;
}

answered : get_solvency deps (codes "t1") 0 ≡ (ok answer, 0)
unfolding get_solvency conclude verdict solvency_result reserves_cover_liabilities compare_totals
    parse_bigint
answered = refl

get_solvency_iff_example :
    ((answer.is_solvent ≡ true)
      ↔ ((answer.verified_on_chain ≡ true) × Covers answer.reserves_total answer.liabilities_total))
    × (answer.status ≡ (if answer.is_solvent then solvent else breach))
get_solvency_iff_example = get_solvency_iff deps (codes "t1") 0 0 answer answered

answered_on_chain :
    get_solvency (chain_solvency_deps sample_platform sample_contract env testnet) (codes "t1") 0
    ≡ (ok answer, 3)
unfolding get_solvency conclude verdict solvency_result reserves_cover_liabilities compare_totals
    parse_bigint chain_solvency_deps check_on_chain get_latest_proof get_on_chain_latest_proof
    resolve_chain Orchestrator.get_latest_proof get_tenant_contract request new_chain_client
    chain_latest_proof registry_latest_proof to_proof_meta print_bigint print_nat new_solva
    resolve_config defaults sdk_config
answered_on_chain = refl

solvent_on_chain_example :
    (proof : Proof) × (orchestrator : Orchestrator) × (u : ℕ) × (options : ContractClientOptions)
    × (x : ℕ) × (raw : GeneratedProofMeta) × (orchestrator.tenant ≡ codes "t1")
    × (Orchestrator.get_latest_proof sample_platform orchestrator 0 ≡ (ok proof, u))
    × IsMeant sample_platform sample_contract env testnet (codes "t1") u options.contract_id x
    × (sample_contract.get_latest_proof options x ≡ (ok raw, 3))
    × (raw.l ≤ℤ raw.r)
    × (answer.reserves_total ≡ proof.public_inputs.reserves_total)
    × (answer.liabilities_total ≡ proof.public_inputs.liabilities_total)
    × Covers answer.reserves_total answer.liabilities_total
solvent_on_chain_example =
    solvent_on_chain sample_platform sample_contract env testnet (codes "t1") 0 3 answer
      answered_on_chain refl

get_anomalies-IsBlank_example :
    IsBlank
      (get_anomalies (build_deps sample_platform sample_contract env testnet) (codes "t1") 0).0
get_anomalies-IsBlank_example =
    get_anomalies-IsBlank sample_platform sample_contract env testnet (codes "t1") 0
