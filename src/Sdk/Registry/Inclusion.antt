-- ===== src/Sdk/Registry/Inclusion.antt =====
-- From the API's inclusion path to the contract's, through the shared type: `getInclusionRef` of
-- packages/sdk-ts/src/orchestrator-client.ts and `toContractPathNode` of
-- packages/contract-bindings/src/index.ts.
use solva.Prelude.{ℕ, ◌≡◌, refl, List, [], ◌∷◌, map, Option, none, some, arith}
use solva.Prelude.Int.{ℤ}
use solva.Prelude.BigInt.{parse_bigint}
use solva.Prelude.BigInt.RoundTrip.{parse_bigint-print_bigint}
use solva.SharedTypes.{PathNode}
use solva.Sdk.Orchestrator.{PathNodeDto, InclusionRefDto, path_node_of, inclusion_ref_of}
use solva.Sdk.Registry.{
  GeneratedPathNode, GeneratedProofMeta, InclusionCall, contract_node, cons_node, assemble,
  to_contract_path, inclusion_call, to_proof_meta,
}
use solva.Sdk.Registry.Hex.{hex_to_buffer}

-- One node of the API beside one that the contract gets.
pub record Carries (dto : PathNodeDto) (node : GeneratedPathNode) : Type 0 where
  pub same_side : node.sibling_is_left ≡ dto.sibling_is_left
  pub same_hash : node.hash ≡ hex_to_buffer dto.hash
  pub same_sum : parse_bigint dto.sum ≡ some node.sum

abbrev pub CarriesAll : List PathNodeDto → List GeneratedPathNode → Type 0
CarriesAll [] [] = Unit {0}
CarriesAll (d ∷ ds) (n ∷ ns) = Carries d n × CarriesAll ds ns
CarriesAll _ _ = ⊥

cons_node_parts :
    (sum : Option ℤ) (node : PathNode) (rest : Option (List GeneratedPathNode))
    (nodes : List GeneratedPathNode)
    → cons_node sum node rest ≡ some nodes
    → (z : ℤ) × (more : List GeneratedPathNode) × (sum ≡ some z)
      × (rest ≡ some more)
      × (contract_node z node ∷ more ≡ nodes)
unfolding cons_node
cons_node_parts none node rest nodes h = cc
cons_node_parts (some z) node none nodes h = cc
cons_node_parts (some z) node (some more) nodes h = (z, more, refl, refl, ground arith)

path_node_of-Carries :
    (d : PathNodeDto) (z : ℤ)
    → parse_bigint d.sum ≡ some z
    → Carries d (contract_node z (path_node_of d))
unfolding contract_node path_node_of
path_node_of-Carries d z h = record { same_side = ground arith; same_hash = refl; same_sum = h }

to_contract_path-CarriesAll :
    (dtos : List PathNodeDto) (nodes : List GeneratedPathNode)
    → to_contract_path (map path_node_of dtos) ≡ some nodes
    → CarriesAll dtos nodes
unfolding to_contract_path
to_contract_path-CarriesAll [] nodes h =
    let same : ◌≡◌ {A = List GeneratedPathNode} [] nodes = ground arith in rw (← same) tt
to_contract_path-CarriesAll (d ∷ ds) nodes h =
    let (z, more, hz, hm, same) =
      cons_node_parts (parse_bigint (path_node_of d).sum) (path_node_of d)
        (to_contract_path (map path_node_of ds)) nodes h in
    rw (← same)
      (path_node_of-Carries d z (unfold path_node_of in hz), to_contract_path-CarriesAll ds more hm)

assemble_path :
    (id balance : Option ℤ) (path : Option (List GeneratedPathNode)) (id_hash : List ℕ)
    (call : InclusionCall)
    → assemble id balance path id_hash ≡ some call
    → path ≡ some call.path
unfolding assemble
assemble_path (some id) (some balance) (some path) id_hash call h = ground arith
assemble_path _ _ _ id_hash call h = cc

-- When an inclusion reference of the API becomes a call of the contract, the call's path has the
-- API's nodes in their order, each with its side, hash bytes and sum.
pub inclusion_call-CarriesAll :
    (dto : InclusionRefDto) (call : InclusionCall)
    → inclusion_call (inclusion_ref_of dto) ≡ some call
    → CarriesAll dto.path call.path
unfolding inclusion_call inclusion_ref_of
inclusion_call-CarriesAll dto call h = to_contract_path-CarriesAll dto.path call.path (
    assemble_path (parse_bigint dto.proof_id) (parse_bigint dto.balance)
      (to_contract_path (map path_node_of dto.path)) (hex_to_buffer dto.customer_id_hash) call h)

-- The totals that the contract returns are read back from the texts of the SDK's answer.
pub to_proof_meta_totals :
    (m : GeneratedProofMeta)
    → (parse_bigint (to_proof_meta m).reserves_total ≡ some m.r)
      × (parse_bigint (to_proof_meta m).liabilities_total ≡ some m.l)
unfolding to_proof_meta
to_proof_meta_totals m = (parse_bigint-print_bigint m.r, parse_bigint-print_bigint m.l)
