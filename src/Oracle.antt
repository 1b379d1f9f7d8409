-- ===== src/Oracle.antt =====
-- services/oracle/src: the MCP oracle's answers (solvency.ts, tools.ts, server.ts). Reads go through
-- the SDK of Sdk.Client, one fresh object for each; the environment is an argument.
pub mod Named
pub mod Verdicts
pub mod History
mod Examples
use solva.Prelude.{
  ◌≡◌, Bool, true, false, List, [], ◌∷◌, Option, none, some, ◌&&◌, ◌||◌, if◌then◌else◌,
}
use solva.Prelude.Int.{ℤ, leb_ℤ}
use solva.Prelude.Text.{Text, codes, text_eq, is_truthy}
use solva.Prelude.BigInt.{parse_bigint}
use solva.Prelude.Effect.{Result, ok, err, Eff, ret, throw, ◌>>=◌, catching}
use solva.SharedTypes.{Proof, SolvencyResult, SolvencyStatus, solvent, breach}
use solva.Anomaly.{AnomalyThresholds, AnomalyFlag, default_thresholds, detect_anomalies}
use solva.Sdk.{Network, testnet, mainnet, local, Overrides, SolvaConfig, Thrown, foreign}
use solva.Sdk.Orchestrator.{Platform}
use solva.Sdk.Registry.{Contract, ProofMeta}
use solva.Sdk.Client.{Solva, Session, new_solva, get_latest_proof, get_on_chain_latest_proof}

-- `BigInt(reservesTotal) >= BigInt(liabilitiesTotal)`; none where a total is no integer.
compare_totals : Option ℤ → Option ℤ → Option Bool
compare_totals (some r) (some l) = some (leb_ℤ l r)
compare_totals _ _ = none

pub reserves_cover_liabilities : Text → Text → Option Bool
unfolding compare_totals
reserves_cover_liabilities r l = compare_totals (parse_bigint r) (parse_bigint l)

-- What `getSolvency` needs: the latest proof of a tenant, and an on-chain check of it.
pub record SolvencyDeps (W : Type 0) : Type 0 where
  pub latest_proof : Text → Eff W Thrown Proof
  pub verify_on_chain : Text → Proof → Eff W Thrown Bool

abbrev or_syntax_error : Option Bool → Result Thrown Bool
or_syntax_error none = err (foreign (codes "SyntaxError"))
or_syntax_error (some b) = ok b

-- `verifiedOnChain && reservesCoverLiabilities(…)`: the totals are read only behind a check that
-- passed.
pub verdict : Bool → Proof → Result Thrown Bool
unfolding reserves_cover_liabilities
verdict false proof = ok false
verdict true proof = or_syntax_error (
    reserves_cover_liabilities proof.public_inputs.reserves_total
      proof.public_inputs.liabilities_total)

pub solvency_result : Proof → Bool → Bool → SolvencyResult
solvency_result proof verified is_solvent = record {
  status = if is_solvent then solvent else breach;
  is_solvent = is_solvent;
  reserves_total = proof.public_inputs.reserves_total;
  liabilities_total = proof.public_inputs.liabilities_total;
  proof_id = proof.id;
  verified_on_chain = verified;
  as_of = proof.published_at;
}

module _ {W : Type 0} (deps : SolvencyDeps W) (tenant : Text) where
  -- From the on-chain check on.
  conclude : Proof → Bool → Eff W Thrown SolvencyResult
  unfolding verdict solvency_result
  conclude proof verified = do
    is_solvent ← λ w. (verdict verified proof, w)
    ret (solvency_result proof verified is_solvent)

  judge : Proof → Eff W Thrown SolvencyResult
  unfolding conclude
  judge proof = deps.verify_on_chain tenant proof >>= conclude proof

  unfoldable pub get_solvency : Eff W Thrown SolvencyResult
  unfolding judge
  get_solvency = deps.latest_proof tenant >>= judge

-- `process.env`, as far as it is read.
pub record Environment : Type 0 where
  pub solva_network : Option Text
  pub orchestrator_url : Option Text
  pub rpc_url : Option Text
  pub contract_id : Option Text
  pub api_token : Option Text

-- `if (value) …`: a variable that is empty counts as not set.
abbrev pub when_set : Option Text → Option Text
when_set none = none
when_set (some t) = if is_truthy t then some t else none

abbrev is_given {ℓ} : {A : Type ℓ} → Option A → Bool
is_given none = false
is_given (some _) = true

-- The endpoints are passed on only if one of them is set.
env_overrides : Environment → Option Overrides
env_overrides env =
    if is_given (when_set env.orchestrator_url)
      || is_given (when_set env.rpc_url)
      || is_given (when_set env.contract_id)
    then some (record {
      orchestrator_url = when_set env.orchestrator_url;
      rpc_url = when_set env.rpc_url;
      network_passphrase = none;
      contract_id = when_set env.contract_id;
    })
    else none

unfoldable pub sdk_config : Environment → Network → Text → SolvaConfig
unfolding env_overrides
sdk_config env network tenant = record {
  network = network;
  tenant = tenant;
  endpoints = env_overrides env;
  api_key = when_set env.api_token;
}

unfoldable pub network_from_env : Environment → Network
network_from_env env = elim env.solva_network [
  | none ↦ testnet
  | some n ↦
      if text_eq n (codes "mainnet")
      then mainnet
      else if text_eq n (codes "local")
      then local
      else testnet
]

-- A call on a new SDK object, which is dropped afterwards.
abbrev drop_session {ℓ} :
    {W : Type 0} {A : Type ℓ} → Result Thrown A × Session W → Result Thrown A × W
drop_session (r, s) = (r, s.world)

abbrev pub on_fresh {ℓ} :
    {W : Type 0} {A : Type ℓ} → SolvaConfig → Eff (Session W) Thrown A → Eff W Thrown A
on_fresh config call w = drop_session (call (record { world = w; solva = new_solva config }))

module _ {W : Type 0} (platform : Platform W) (contract : Contract W) where
  -- The `try` block of `verifyOnChain`.
  pub check_on_chain : SolvaConfig → Eff W Thrown Bool
  check_on_chain config = do
    m ← on_fresh config (get_on_chain_latest_proof platform contract)
    λ w. (or_syntax_error (reserves_cover_liabilities m.reserves_total m.liabilities_total), w)

  unfoldable pub chain_solvency_deps : Environment → Network → SolvencyDeps W
  unfolding check_on_chain
  chain_solvency_deps env network = record {
    latest_proof =
        λ tenant. on_fresh (sdk_config env network tenant) (get_latest_proof platform contract);
    verify_on_chain =
        λ tenant _. catching (check_on_chain (sdk_config env network tenant)) (λ _. ret false);
  }

  -- `buildDeps` reads the history with the network and the tenant alone.
  unfoldable pub proof_history : Network → Text → Eff W Thrown (List Proof)
  proof_history network tenant = do
    latest ←
        on_fresh (record { network = network; tenant = tenant; endpoints = none; api_key = none })
          (get_latest_proof platform contract)
    ret (latest ∷ [])

-- What the tools need: the deps of the solvency tool, and a history for the anomaly tool.
pub record OracleDeps (W : Type 0) : Type 0 where
  pub solvency : SolvencyDeps W
  pub history : Text → Eff W Thrown (List Proof)
  pub thresholds : Option AnomalyThresholds

abbrev or_default_thresholds : Option AnomalyThresholds → AnomalyThresholds
or_default_thresholds none = default_thresholds
or_default_thresholds (some t) = t

abbrev or_scan_error : Option (List AnomalyFlag) → Result Thrown (List AnomalyFlag)
or_scan_error none = err (foreign (codes "SyntaxError"))
or_scan_error (some flags) = ok flags

-- The handler of the tool `get_solvency`.
unfoldable pub get_solvency_tool : {W : Type 0} → OracleDeps W → Text → Eff W Thrown SolvencyResult
get_solvency_tool deps institution = get_solvency deps.solvency institution

-- The handler of the tool `get_anomalies`.
unfoldable pub get_anomalies : {W : Type 0} → OracleDeps W → Text → Eff W Thrown (List AnomalyFlag)
get_anomalies deps institution = do
  proofs ← deps.history institution
  λ w. (or_scan_error (detect_anomalies (or_default_thresholds deps.thresholds) proofs), w)

unfoldable pub build_deps :
    {W : Type 0} → Platform W → Contract W → Environment → Network → OracleDeps W
unfolding chain_solvency_deps proof_history
build_deps platform contract env network = record {
  solvency = chain_solvency_deps platform contract env network;
  history = proof_history platform contract network;
  thresholds = none;
}
