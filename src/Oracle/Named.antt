-- ===== src/Oracle/Named.antt =====
-- Which contract and which institution the reads of services/oracle/src/solvency.ts are of.
use solva.Prelude.{
  ◌≡◌, ◌≢◌, refl, sym, ap, ◌∙◌, ◌⊎◌, inl, inr, [], ◌∷◌, ◌||◌, Option, none, some, if◌then◌else◌,
}
use mathlib.Core.Path.{subst}
use solva.Prelude.Text.{Text}
use solva.Prelude.Effect.{Result, ok, err}
use solva.SharedTypes.{Proof}
use solva.Sdk.{Network, testnet, mainnet, local, Thrown, defaults, override_with, resolve_config}
use solva.Sdk.Orchestrator
use solva.Sdk.Orchestrator.{Platform, Orchestrator, ContractDto}
use solva.Sdk.Registry.{
  ContractClientOptions, Contract, GeneratedProofMeta, ProofMeta, to_proof_meta,
}
use solva.Sdk.Client.{Solva, Session, new_solva, get_latest_proof, get_on_chain_latest_proof}
use solva.Sdk.Client.Named.{NamedBy, beside-ok, on_chain_latest-NamedBy}
use solva.Oracle.{
  Environment, when_set, is_given, env_overrides, sdk_config, drop_session, on_fresh,
}

abbrev or_none : Option Text → Text
or_none none = []
or_none (some id) = id

given_contract :
    (network : Network) (a b c : Option Text)
    → (override_with (defaults network) (
        if is_given a || is_given b || is_given c
        then some (record {
          orchestrator_url = a;
          rpc_url = b;
          network_passphrase = none;
          contract_id = c;
        })
        else none)).contract_id
      ≡ or_none c
unfolding override_with defaults
given_contract testnet none none none = refl
given_contract mainnet none none none = refl
given_contract local none none none = refl
given_contract testnet (some a) b none = refl
given_contract mainnet (some a) b none = refl
given_contract local (some a) b none = refl
given_contract testnet none (some b) none = refl
given_contract mainnet none (some b) none = refl
given_contract local none (some b) none = refl
given_contract network (some a) b (some c) = refl
given_contract network none (some b) (some c) = refl
given_contract network none none (some c) = refl

module _ {W : Type 0} (platform : Platform W) (contract : Contract W) (env : Environment)
    (network : Network) (tenant : Text) where
  abbrev pub opened : Solva
  opened = new_solva (sdk_config env network tenant)

  opened-contract : opened.endpoints.contract_id ≡ or_none (when_set env.contract_id)
  unfolding new_solva resolve_config sdk_config env_overrides
  opened-contract =
      given_contract network (when_set env.orchestrator_url) (when_set env.rpc_url)
        (when_set env.contract_id)

  -- The contract with this id is the one that the environment names for every tenant, and nothing is
  -- asked for it; or, where it names none, the one that the orchestrator has on record for this
  -- tenant.
  abbrev pub IsMeant : W → Text → W → Type 0
  IsMeant u id x =
      ((env.contract_id ≡ some id) × (id ≢ []) × (x ≡ u))
      ⊎ (((env.contract_id ≡ none) ⊎ (env.contract_id ≡ some []))
          × ((orchestrator : Orchestrator) × (dto : ContractDto) × (orchestrator.tenant ≡ tenant)
              × (Orchestrator.get_tenant_contract platform orchestrator u ≡ (ok dto, x))
              × (id ≡ dto.contract_id)))

  NamedBy-IsMeant :
      (chosen : Option Text) (u : W) (id : Text) (x : W)
      → env.contract_id ≡ chosen
      → NamedBy platform contract (or_none (when_set chosen)) opened.orchestrator u id x
      → IsMeant u id x
  unfolding NamedBy new_solva resolve_config sdk_config
  NamedBy-IsMeant none u id x e (dto, asked, named) =
      inr (inl e, (opened.orchestrator, dto, refl, asked, named))
  NamedBy-IsMeant (some []) u id x e (dto, asked, named) =
      inr (inr e, (opened.orchestrator, dto, refl, asked, named))
  NamedBy-IsMeant (some (c ∷ chosen)) u id x e (same, still) =
      inl (e ∙ ap some (sym same), (λ nothing. cc), still)

  fresh_session :
      {A : Type 0} (call : Result Thrown A × Session W) (a : A) (v : W)
      → drop_session call ≡ (ok a, v)
      → (t : Session W) × (call ≡ (ok a, t)) × (t.world ≡ v)
  fresh_session (ok b, t) a v h = (t, cc, ap (λ x. x.1) h)
  fresh_session (err e, t) a v h = cc

  -- A proof is read from the orchestrator under the tenant's name.
  pub latest_proof-asked :
      (w u : W) (proof : Proof)
      → on_fresh (sdk_config env network tenant) (get_latest_proof platform contract) w
        ≡ (ok proof, u)
      → (orchestrator : Orchestrator) × (orchestrator.tenant ≡ tenant)
        × (Orchestrator.get_latest_proof platform orchestrator w ≡ (ok proof, u))
  unfolding get_latest_proof new_solva resolve_config sdk_config
  latest_proof-asked w u proof h =
      let (t, called, after) = fresh_session _ proof u h in
      let (answered, _) =
        beside-ok platform contract opened
          (Orchestrator.get_latest_proof platform opened.orchestrator w) proof t called in
      (opened.orchestrator, refl, answered ∙ ap (λ y. (ok proof, y)) after)

  -- The on-chain read is of the contract that is meant.
  pub on_chain-IsMeant :
      (u v : W) (m : ProofMeta)
      → on_fresh (sdk_config env network tenant) (get_on_chain_latest_proof platform contract) u
        ≡ (ok m, v)
      → (options : ContractClientOptions) × (x : W) × (raw : GeneratedProofMeta) × IsMeant u
          options.contract_id x
        × (contract.get_latest_proof options x ≡ (ok raw, v))
        × (m ≡ to_proof_meta raw)
  unfolding new_solva
  on_chain-IsMeant u v m h =
      let (t, called, after) = fresh_session _ m v h in
      let (options, x, raw, named, got, shown) =
        on_chain_latest-NamedBy platform contract (record { world = u; solva = opened }) t m refl
          called in
      (
        options,
        x,
        raw,
        NamedBy-IsMeant env.contract_id u options.contract_id x refl (
            subst (λ id. NamedBy platform contract id opened.orchestrator u options.contract_id x)
              opened-contract named),
        got ∙ ap (λ y. (ok raw, y)) after,
        shown,
      )
