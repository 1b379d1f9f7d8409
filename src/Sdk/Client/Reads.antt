-- ===== src/Sdk/Client/Reads.antt =====
-- What the SDK's reads keep of the object (packages/sdk-ts/src/solva.ts).
use solva.Prelude.{◌≡◌, ◌≢◌, ◌⊎◌, inl, inr, refl, [], ◌∷◌, Option, none, some, Option-cases, arith}
use solva.Prelude.Text.{Text}
use solva.Prelude.Effect.{Result, ok, err}
use solva.Sdk.{Thrown, NetworkConfig}
use solva.SharedTypes.{InclusionRef}
use solva.Sdk.Orchestrator.{Platform}
use solva.Sdk.Registry.{Contract}
use solva.Sdk.Chain.{ChainClient, new_chain_client}
use solva.Sdk.Client.{
  Solva, Session, full, contract_id_of, keep_chain, build_chain, resolve_chain,
  get_on_chain_latest_proof, verify_inclusion,
}

-- The client that is kept, if any, reads over the configured endpoint and network, and names a
-- contract: the configured one, if there is one.
abbrev pub Bound : NetworkConfig → Option ChainClient → Type 0
Bound endpoints none = Unit {0}
Bound endpoints (some c) =
    (c.registry.contract_id ≢ [])
    × (c.registry.rpc_url ≡ endpoints.rpc_url)
    × (c.registry.network_passphrase ≡ endpoints.network_passphrase)
    × ((endpoints.contract_id ≡ []) ⊎ (c.registry.contract_id ≡ endpoints.contract_id))

-- What a call may do to the object: nothing, or set a client that was not there.
pub record Extends (s t : Solva) : Type 0 where
  pub same_orchestrator : t.orchestrator ≡ s.orchestrator
  pub same_endpoints : t.endpoints ≡ s.endpoints
  pub kept : (t.chain ≡ s.chain) ⊎ (s.chain ≡ none)

pub Extends-refl : (s : Solva) → Extends s s
Extends-refl s = record { same_orchestrator = refl; same_endpoints = refl; kept = inl refl }

module _ {W : Type 0} (platform : Platform W) (contract : Contract W) where
  contract_id_of_bound :
      (s : Solva) (w v : W) (id : Text)
      → contract_id_of platform contract s w ≡ (ok id, v)
      → (s.endpoints.contract_id ≡ []) ⊎ (id ≡ s.endpoints.contract_id)
  unfolding contract_id_of
  contract_id_of_bound s w v id e = go s.endpoints.contract_id refl
    where
      go :
          (c : Text)
          → s.endpoints.contract_id ≡ c
          → (s.endpoints.contract_id ≡ []) ⊎ (id ≡ s.endpoints.contract_id)
      go [] k = inl k
      go (c ∷ cs) k = inr (ground arith)

  keep_chain-Bound :
      (s : Session W) (id : Text)
      → (s.solva.endpoints.contract_id ≡ []) ⊎ (id ≡ s.solva.endpoints.contract_id)
      → s.solva.chain ≡ none
      → Bound s.solva.endpoints (keep_chain platform contract id s).1.solva.chain
        × Extends s.solva (keep_chain platform contract id s).1.solva
  unfolding keep_chain new_chain_client
  keep_chain-Bound s [] h n = (rw n tt, ground arith)
  keep_chain-Bound s (c ∷ id) h n = ((λ e. cc, refl, refl, h), ground arith)

  build_chain-Bound :
      (s : Session W)
      → s.solva.chain ≡ none
      → Bound s.solva.endpoints (build_chain platform contract s).1.solva.chain
        × Extends s.solva (build_chain platform contract s).1.solva
  unfolding build_chain
  build_chain-Bound s absent = go (contract_id_of platform contract s.solva s.world) refl
    where
      go :
          (r : Result Thrown Text × W)
          → contract_id_of platform contract s.solva s.world ≡ r
          → Bound s.solva.endpoints (build_chain platform contract s).1.solva.chain
            × Extends s.solva (build_chain platform contract s).1.solva
      go (ok id, w) k =
          simp (k, build_chain)
            (keep_chain-Bound (record s { world = w }) id
              (contract_id_of_bound s.solva s.world w id k) absent)
      go (err e, w) k = simp (k, build_chain) (simp absent tt, Extends-refl s.solva)

  pub resolve_chain-Bound :
      (s : Session W)
      → Bound s.solva.endpoints s.solva.chain
      → Bound s.solva.endpoints (resolve_chain platform contract s).1.solva.chain
        × Extends s.solva (resolve_chain platform contract s).1.solva
  unfolding resolve_chain
  resolve_chain-Bound s b = elim (Option-cases s.solva.chain) [
    | inl absent ↦ simp (absent, resolve_chain) (build_chain-Bound s absent)
    | inr (c, present) ↦ simp (present, resolve_chain) (simp present at b, Extends-refl s.solva)
  ]

  -- The two reads do to the object what resolving the client does.
  pub on_chain_latest_solva :
      (s : Session W)
      → (get_on_chain_latest_proof platform contract s).1.solva
        ≡ (resolve_chain platform contract s).1.solva
  unfolding get_on_chain_latest_proof
  on_chain_latest_solva s = go (resolve_chain platform contract s) refl
    where
      go :
          (r : Result Thrown ChainClient × Session W)
          → resolve_chain platform contract s ≡ r
          → (get_on_chain_latest_proof platform contract s).1.solva
            ≡ (resolve_chain platform contract s).1.solva
      go (ok c, t) k = simp k
      go (err e, t) k = simp k

  pub verify_full_solva :
      (ref : InclusionRef) (s : Session W)
      → (verify_inclusion platform contract (full ref) s).1.solva
        ≡ (resolve_chain platform contract s).1.solva
  unfolding verify_inclusion
  verify_full_solva ref s = go (resolve_chain platform contract s) refl
    where
      go :
          (r : Result Thrown ChainClient × Session W)
          → resolve_chain platform contract s ≡ r
          → (verify_inclusion platform contract (full ref) s).1.solva
            ≡ (resolve_chain platform contract s).1.solva
      go (ok c, t) k = simp k
      go (err e, t) k = simp k

  abbrev Sets : Result Thrown ChainClient × Session W → Type 0
  Sets (ok c, t) = t.solva.chain ≡ some c
  Sets (err e, t) = Unit {0}

  keep_chain-Sets : (s : Session W) (id : Text) → Sets (keep_chain platform contract id s)
  unfolding keep_chain new_chain_client
  keep_chain-Sets s [] = tt
  keep_chain-Sets s (c ∷ id) = refl

  build_chain-Sets : (s : Session W) → Sets (build_chain platform contract s)
  unfolding build_chain
  build_chain-Sets s = go (contract_id_of platform contract s.solva s.world) refl
    where
      go :
          (r : Result Thrown Text × W)
          → contract_id_of platform contract s.solva s.world ≡ r
          → Sets (build_chain platform contract s)
      go (ok id, w) k = simp (k, build_chain) (keep_chain-Sets (record s { world = w }) id)
      go (err e, w) k = simp (k, build_chain) tt

  resolve_chain-Sets : (s : Session W) → Sets (resolve_chain platform contract s)
  unfolding resolve_chain
  resolve_chain-Sets s = elim (Option-cases s.solva.chain) [
    | inl absent ↦ simp (absent, resolve_chain) (build_chain-Sets s)
    | inr (c, present) ↦ simp (present, resolve_chain) refl
  ]

  -- A client once resolved is kept: a second resolution answers it, and changes neither the world
  -- nor the object.
  pub resolve_chain_again :
      (s t : Session W) (c : ChainClient)
      → resolve_chain platform contract s ≡ (ok c, t)
      → resolve_chain platform contract t ≡ (ok c, t)
  unfolding resolve_chain
  resolve_chain_again s t c e =
      let kept : t.solva.chain ≡ some c = rw e at (resolve_chain-Sets s) in
      simp (kept, resolve_chain) refl
