-- ===== src/Sdk/Client/Named.antt =====
-- Which contract a new object's read of the chain goes to: packages/sdk-ts/src/solva.ts and
-- chain-client.ts.
use solva.Prelude.{◌≡◌, refl, ap, sym, ◌∙◌, [], ◌∷◌, none}
use mathlib.Core.Path.{subst}
use solva.Prelude.Text.{Text, codes}
use solva.Prelude.Effect.{Result, ok, err, and_then-eq-ok, or_else, ret}
use solva.Sdk.{Thrown, chain_error}
use solva.Sdk.Orchestrator
use solva.Sdk.Orchestrator.{Platform, Orchestrator, ContractDto}
use solva.Sdk.Registry.{
  ContractClientOptions, Contract, GeneratedProofMeta, ProofMeta, to_proof_meta,
  registry_latest_proof,
}
use solva.Sdk.Chain.{ChainClient, new_chain_client, chain_latest_proof}
use solva.Sdk.Client.{
  Solva, Session, beside, on_world, contract_id_of, keep_chain, build_chain, resolve_chain,
  get_on_chain_latest_proof,
}

result_of :
    {A W : Type 0} {a b : A} {w v : W}
    → ◌≡◌ {A = Result Thrown A × W} (ok a, w) (ok b, v)
    → (a ≡ b) × (w ≡ v)
result_of h = (cc, cc)

module _ {W : Type 0} (platform : Platform W) (contract : Contract W) where
  -- The configured contract, or the one that the orchestrator has on record for the tenant.
  unfoldable pub NamedBy : Text → Orchestrator → W → Text → W → Type 0
  NamedBy [] o u id x =
      (dto : ContractDto) × (Orchestrator.get_tenant_contract platform o u ≡ (ok dto, x))
      × (id ≡ dto.contract_id)
  NamedBy (c ∷ configured) o u id x = (id ≡ c ∷ configured) × (x ≡ u)

  pub beside-ok :
      {A : Type 0} (s : Solva) (answer : Result Thrown A × W) (a : A) (t : Session W)
      → beside platform contract s answer ≡ (ok a, t)
      → (answer ≡ (ok a, t.world)) × (t.solva ≡ s)
  beside-ok s (ok b, w) a t h =
      let (same, after) = result_of h in (cc, sym (ap (λ x. x.solva) after))
  beside-ok s (err e, w) a t h = cc

  contract_id_of-NamedBy :
      (s : Solva) (configured : Text) (u x : W) (id : Text)
      → s.endpoints.contract_id ≡ configured
      → contract_id_of platform contract s u ≡ (ok id, x)
      → NamedBy configured s.orchestrator u id x
  unfolding contract_id_of NamedBy
  contract_id_of-NamedBy s [] u x id e h =
      let (dto, v, asked, named) =
        and_then-eq-ok (Orchestrator.get_tenant_contract platform s.orchestrator u)
          (λ (dto : ContractDto). ret dto.contract_id) id x (rw e at h) in
      let (same, after) = result_of named in (dto, asked ∙ ap (λ y. (ok dto, y)) after, sym same)
  contract_id_of-NamedBy s (c ∷ configured) u x id e h =
      let (same, after) = result_of (rw e at h) in (sym same, sym after)

  keep_chain-named :
      (id : Text) (s t : Session W) (chain : ChainClient)
      → keep_chain platform contract id s ≡ (ok chain, t)
      → (chain.registry.contract_id ≡ id) × (t.world ≡ s.world)
  unfolding keep_chain new_chain_client
  keep_chain-named [] s t chain h = cc
  keep_chain-named (c ∷ id) s t chain h =
      let (same, after) = result_of h in
      (sym (ap (λ x. x.registry.contract_id) same), sym (ap (λ x. x.world) after))

  build_chain-NamedBy :
      (s t : Session W) (chain : ChainClient)
      → build_chain platform contract s ≡ (ok chain, t)
      → NamedBy s.solva.endpoints.contract_id s.solva.orchestrator s.world
          chain.registry.contract_id t.world
  unfolding build_chain
  build_chain-NamedBy s t chain h =
      let (id, r, found, kept) =
        and_then-eq-ok (on_world platform contract (contract_id_of platform contract) s)
          (keep_chain platform contract) chain t h in
      let (answered, _) =
        beside-ok s.solva (contract_id_of platform contract s.solva s.world) id r found in
      let (named, after) = keep_chain-named id r t chain kept in
      let here =
        contract_id_of-NamedBy s.solva s.solva.endpoints.contract_id s.world r.world id refl
          answered in
      subst (λ y. NamedBy s.solva.endpoints.contract_id s.solva.orchestrator s.world y t.world)
        (sym named)
        (subst (λ y. NamedBy s.solva.endpoints.contract_id s.solva.orchestrator s.world id y)
          (sym after) here)

  resolve_chain-NamedBy :
      (s t : Session W) (chain : ChainClient)
      → s.solva.chain ≡ none
      → resolve_chain platform contract s ≡ (ok chain, t)
      → NamedBy s.solva.endpoints.contract_id s.solva.orchestrator s.world
          chain.registry.contract_id t.world
  unfolding resolve_chain
  resolve_chain-NamedBy s t chain absent h =
      let same : resolve_chain platform contract s ≡ build_chain platform contract s =
        simp (absent, resolve_chain) in
      build_chain-NamedBy s t chain (sym same ∙ h)

  uncaught :
      (answer : Result Text ProofMeta × W) (m : ProofMeta) (v : W)
      → or_else answer (λ cause w. (err (chain_error (codes "get_latest_proof call failed")), w))
        ≡ (ok m, v)
      → answer ≡ (ok m, v)
  uncaught (ok found, w) m v h = let (same, after) = result_of h in cc
  uncaught (err cause, w) m v h = cc

  chain_latest_proof-raw :
      (chain : ChainClient) (m : ProofMeta) (w v : W)
      → chain_latest_proof contract chain w ≡ (ok m, v)
      → (raw : GeneratedProofMeta) × (contract.get_latest_proof chain.registry w ≡ (ok raw, v))
        × (m ≡ to_proof_meta raw)
  unfolding chain_latest_proof registry_latest_proof
  chain_latest_proof-raw chain m w v h =
      let read = uncaught (registry_latest_proof contract chain.registry w) m v h in
      let (raw, u, got, shown) =
        and_then-eq-ok (contract.get_latest_proof chain.registry w)
          (λ (raw : GeneratedProofMeta). ret (to_proof_meta raw)) m v read in
      (raw, cc, cc)

  -- The first read of the chain on an object goes to the contract that is named so, and gives what
  -- the contract's client answered.
  pub on_chain_latest-NamedBy :
      (s t : Session W) (m : ProofMeta)
      → s.solva.chain ≡ none
      → get_on_chain_latest_proof platform contract s ≡ (ok m, t)
      → (options : ContractClientOptions) × (x : W) × (raw : GeneratedProofMeta) × NamedBy
          s.solva.endpoints.contract_id s.solva.orchestrator s.world options.contract_id x
        × (contract.get_latest_proof options x ≡ (ok raw, t.world))
        × (m ≡ to_proof_meta raw)
  unfolding get_on_chain_latest_proof
  on_chain_latest-NamedBy s t m absent h =
      let (chain, r, resolved, called) =
        and_then-eq-ok (resolve_chain platform contract s)
          (λ (chain : ChainClient).
            on_world platform contract (λ (_ : Solva). chain_latest_proof contract chain))
          m t h in
      let (answered, _) =
        beside-ok r.solva (chain_latest_proof contract chain r.world) m t called in
      let (raw, got, shown) = chain_latest_proof-raw chain m r.world t.world answered in
      (chain.registry, r.world, raw, resolve_chain-NamedBy s r chain absent resolved, got, shown)
