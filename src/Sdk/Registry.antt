-- ===== src/Sdk/Registry.antt =====
-- packages/contract-bindings/src/index.ts: the read client of the proof-registry contract. The
-- generated client below it is not source of this repository's own: its calls are a parameter.
pub mod Hex
pub mod Inclusion
use solva.Prelude.{ℕ, Bool, true, false, List, [], ◌∷◌, map, Option, none, some}
use solva.Prelude.Int.{ℤ}
use solva.Prelude.Text.{Text, codes}
use solva.Prelude.BigInt.{parse_bigint, print_bigint}
use solva.Prelude.Effect.{Result, ok, err, Eff, ret, throw, ◌>>=◌}
use solva.SharedTypes.{InclusionRef, PathNode, Position, left, right}
use Hex.{buffer_to_hex, hex_to_buffer}

pub record ContractClientOptions : Type 0 where
  pub contract_id : Text
  pub rpc_url : Text
  pub network_passphrase : Text

-- What the contract returns: a 32-byte root, two i128 totals and a u64 time.
pub record GeneratedProofMeta : Type 0 where
  pub root_h : List ℕ
  pub r : ℤ
  pub l : ℤ
  pub timestamp : ℕ

pub record GeneratedPathNode : Type 0 where
  pub hash : List ℕ
  pub sibling_is_left : Bool
  pub sum : ℤ

pub record InclusionCall : Type 0 where
  pub id : ℤ
  pub id_hash : List ℕ
  pub balance : ℤ
  pub path : List GeneratedPathNode

-- The generated client: a simulated call of the contract that the options name, unwrapped.
pub record Contract (W : Type 0) : Type 0 where
  pub get_latest_proof : ContractClientOptions → Eff W Text GeneratedProofMeta
  pub get_proof : ContractClientOptions → ℤ → Eff W Text GeneratedProofMeta
  pub verify_inclusion : ContractClientOptions → InclusionCall → Eff W Text Bool

pub record ProofMeta : Type 0 where
  pub root_hash : Text
  pub reserves_total : Text
  pub liabilities_total : Text
  pub timestamp : ℕ

unfoldable pub to_proof_meta : GeneratedProofMeta → ProofMeta
to_proof_meta m = record {
  root_hash = buffer_to_hex m.root_h;
  reserves_total = print_bigint m.r;
  liabilities_total = print_bigint m.l;
  timestamp = m.timestamp;
}

-- `BigInt(text)`.
abbrev pub bigint_of : Text → Result Text ℤ
bigint_of t = elim (parse_bigint t) [ none ↦ err (codes "SyntaxError") | some z ↦ ok z ]

abbrev is_left : Position → Bool
is_left left = true
is_left right = false

pub contract_node : ℤ → PathNode → GeneratedPathNode
contract_node sum node = record {
  hash = hex_to_buffer node.hash;
  sibling_is_left = is_left node.position;
  sum = sum;
}

cons_node : Option ℤ → PathNode → Option (List GeneratedPathNode) → Option (List GeneratedPathNode)
unfolding contract_node
cons_node none node rest = none
cons_node (some sum) node none = none
cons_node (some sum) node (some nodes) = some (contract_node sum node ∷ nodes)

-- `ref.path.map(toContractPathNode)`; a text that is no integer throws.
pub to_contract_path : List PathNode → Option (List GeneratedPathNode)
unfolding cons_node
to_contract_path [] = some []
to_contract_path (node ∷ path) = cons_node (parse_bigint node.sum) node (to_contract_path path)

assemble : Option ℤ → Option ℤ → Option (List GeneratedPathNode) → List ℕ → Option InclusionCall
assemble (some id) (some balance) (some path) id_hash =
    some (record { id = id; id_hash = id_hash; balance = balance; path = path })
assemble _ _ _ id_hash = none

-- The arguments of the contract's `verify_inclusion`; none where a text is no integer.
unfoldable pub inclusion_call : InclusionRef → Option InclusionCall
unfolding to_contract_path assemble
inclusion_call ref =
    assemble (parse_bigint ref.proof_id) (parse_bigint ref.balance) (to_contract_path ref.path)
      (hex_to_buffer ref.customer_id_hash)

module _ {W : Type 0} (contract : Contract W) (options : ContractClientOptions) where
  unfoldable pub registry_latest_proof : Eff W Text ProofMeta
  unfolding to_proof_meta
  registry_latest_proof = do m ← contract.get_latest_proof options; ret (to_proof_meta m)

  unfoldable pub registry_proof : Text → Eff W Text ProofMeta
  unfolding to_proof_meta
  registry_proof id = do
    n ← λ w. (bigint_of id, w)
    m ← contract.get_proof options n
    ret (to_proof_meta m)

  unfoldable pub registry_verify_inclusion : InclusionRef → Eff W Text Bool
  unfolding inclusion_call
  registry_verify_inclusion ref = elim (inclusion_call ref) [
    | none ↦ throw (codes "SyntaxError")
    | some call ↦ contract.verify_inclusion options call
  ]
