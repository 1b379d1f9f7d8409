-- ===== src/SharedTypes.antt =====
-- packages/shared-types/src: the types that the SDK, the oracle and the web app exchange.
-- proof.ts, merkle.ts and solvency.ts; the anomaly types stand in Anomaly.
use solva.Prelude.{ℕ, Bool, List}
use solva.Prelude.Text.{Text}

-- A customer's balance and a reserve figure, in integer minor units as decimal text.
pub record PublicInputs : Type 0 where
  pub reserves_total : Text
  pub liabilities_total : Text
  pub root_hash : Text
  pub prev_reserves : Text

pub record Proof : Type 0 where
  pub id : Text
  pub proof : Text
  pub public_inputs : PublicInputs
  pub published_at : ℕ

pub data Position : Type 0 where
  left right : Position

pub record PathNode : Type 0 where
  pub hash : Text
  pub sum : Text
  pub position : Position

pub record InclusionRef : Type 0 where
  pub proof_id : Text
  pub customer_id_hash : Text
  pub balance : Text
  pub path : List PathNode

pub data SolvencyStatus : Type 0 where
  solvent breach unknown : SolvencyStatus

pub record SolvencyResult : Type 0 where
  pub status : SolvencyStatus
  pub is_solvent : Bool
  pub reserves_total : Text
  pub liabilities_total : Text
  pub proof_id : Text
  pub verified_on_chain : Bool
  pub as_of : ℕ

pub record InclusionResult : Type 0 where
  pub included : Bool
  pub proof_id : Text
