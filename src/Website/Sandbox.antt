-- ===== src/Website/Sandbox.antt =====
-- The demo's guided run: apps/website/src/features/product/lib/sandbox.ts (steps and log lines),
-- hooks/use-sandbox.ts beside it (the runners and the state machine) and
-- components/demo/sandbox.tsx (which buttons are live when).
pub mod Lines
pub mod Runners
pub mod Hook
pub mod Progress
pub mod Outcomes
mod Examples
use solva.Prelude.{ℕ, ◌+◌, ◌≡◌, refl, Bool, true, false, List, [], ◌∷◌, Option, none, some}
use solva.Prelude.Text.{Text, codes}

pub data StepId : Type 0 where
  registry connect reserves prove verify inclusion : StepId

pub data StepStatus : Type 0 where
  locked ready running done failed : StepStatus

pub data LogKind : Type 0 where
  info detail success warn : LogKind

pub record LogLine : Type 0 where
  pub kind : LogKind
  pub text : Text

unfoldable pub next_step : StepId → Option StepId
next_step registry = some connect
next_step connect = some reserves
next_step reserves = some prove
next_step prove = some verify
next_step verify = some inclusion
next_step inclusion = none

abbrev pub same_step : StepId → StepId → Bool
same_step registry registry = true
same_step connect connect = true
same_step reserves reserves = true
same_step prove prove = true
same_step verify verify = true
same_step inclusion inclusion = true
same_step _ _ = false

pub data Scenario : Type 0 where
  covered just_covered short : Scenario

-- The ids of SCENARIOS.
unfoldable pub scenario_id : Scenario → Text
scenario_id covered = codes "solvent"
scenario_id just_covered = codes "near-breach"
scenario_id short = codes "insolvent"

pub record ProofDto : Type 0 where
  pub id : Option Text
  pub chain_proof_id : Option ℕ
  pub root_hash : Option Text
  pub reserves_total : Option Text
  pub liabilities_total : Option Text

pub record ContractDto : Type 0 where
  pub contract_id : Option Text
  pub network : Option Text

pub record ChainRecord : Type 0 where
  pub reserves : Text
  pub liabilities : Text

pub record SignedBalance : Type 0 where
  pub source_id : Text
  pub balance : Text
  pub currency : Text
  pub signature : Text

-- A `Record<StepId, StepStatus>`, and one with an entry given anew.
pub record Statuses : Type 0 where
  pub registry : StepStatus
  pub connect : StepStatus
  pub reserves : StepStatus
  pub prove : StepStatus
  pub verify : StepStatus
  pub inclusion : StepStatus

abbrev pub at : Statuses → StepId → StepStatus
at s registry = s.registry
at s connect = s.connect
at s reserves = s.reserves
at s prove = s.prove
at s verify = s.verify
at s inclusion = s.inclusion

abbrev pub put : StepId → StepStatus → Statuses → Statuses
put registry v s = record s { registry = v }
put connect v s = record s { connect = v }
put reserves v s = record s { reserves = v }
put prove v s = record s { prove = v }
put verify v s = record s { verify = v }
put inclusion v s = record s { inclusion = v }

abbrev pub initial_status : Statuses
initial_status = record {
  registry = locked;
  connect = locked;
  reserves = locked;
  prove = locked;
  verify = locked;
  inclusion = locked;
}

-- `Record<StepId, LogLine[]>`.
abbrev pub Logs : Type 0
Logs = StepId → List LogLine

abbrev pub empty_logs : Logs
empty_logs _ = []

is_done : StepStatus → ℕ
is_done done = 1
is_done _ = 0

-- `STEPS.filter((step) => status[step.id] === "done").length`.
unfoldable pub completed_steps : Statuses → ℕ
unfolding is_done
completed_steps s =
    is_done s.registry
    + is_done s.connect
    + is_done s.reserves
    + is_done s.prove
    + is_done s.verify
    + is_done s.inclusion
