-- ===== src/Website/Sandbox/Hook.antt =====
-- The state of the demo's guided run and what changes it: `useSandbox` of
-- apps/website/src/features/product/hooks/use-sandbox.ts, with the conditions under which
-- components/demo/sandbox.tsx lets a visitor act.
use solva.Prelude.{
  ℕ, ◌+◌, ◌≡◌, ◌≢◌, Bool, true, false, List, [], ◌∷◌, Option, none, some, if◌then◌else◌,
}
use solva.Prelude.Text.{Text, codes, is_truthy}
use solva.Prelude.Effect.{Result, ok, err}
use solva.Website.Institutions.{DemoInstitution, solstice}
use solva.Website.Sandbox.{
  StepId, registry, connect, StepStatus, ready, running, done, failed, LogLine, warn, Scenario,
  covered, Statuses, at, put, initial_status, Logs, empty_logs, same_step, next_step, ProofDto,
  ContractDto,
}
use solva.Website.Sandbox.Lines.{line, registry_lines}
use solva.Website.Sandbox.Runners.{RunResult, Reply, runner}

-- What the status route answers, and what `loadRegistry` makes of it.
pub record Registry : Type 0 where
  pub reachable : Bool
  pub contract : Option ContractDto
  pub proof : Option ProofDto

unfoldable pub load_registry : Result Text (Option ContractDto × Option ProofDto) → Registry
load_registry (ok (contract, proof)) = record {
  reachable = true;
  contract = contract;
  proof = proof;
}
load_registry (err thrown) = record { reachable = false; contract = none; proof = none }

-- The hook's state. `loading` says that the effect's request is out and not cancelled, `pending`
-- which call of `run` has not settled; the code keeps both as promises.
pub record Sandbox : Type 0 where
  pub institution : DemoInstitution
  pub scenario : Scenario
  pub status : Statuses
  pub logs : Logs
  pub contract : Option ContractDto
  pub proof : Option ProofDto
  pub busy : Bool
  pub reachable : Option Bool
  pub run_id : ℕ
  pub loading : Bool
  pub pending : Option StepId

abbrev pub starting_status : Statuses
starting_status = put registry running initial_status

unfoldable pub initial_sandbox : Sandbox
initial_sandbox = record {
  institution = solstice;
  scenario = covered;
  status = starting_status;
  logs = empty_logs;
  contract = none;
  proof = none;
  busy = false;
  reachable = none;
  run_id = 0;
  loading = true;
  pending = none;
}

pub put_log : StepId → List LogLine → Logs → Logs
put_log id lines logs k = if same_step k id then lines else logs k

unfoldable pub set_step : StepId → StepStatus → Sandbox → Sandbox
set_step id next s = record s { status = put id next s.status }

unfoldable pub set_step_logged : StepId → StepStatus → List LogLine → Sandbox → Sandbox
unfolding put_log
set_step_logged id next lines s = record s {
  status = put id next s.status;
  logs = put_log id lines s.logs;
}

unfoldable pub clear : Sandbox → Sandbox
clear s = record s { status = starting_status; logs = empty_logs; proof = none }

-- The effect depends on the institution, so another one has the registry loaded again.
unfoldable pub set_institution : DemoInstitution → Sandbox → Sandbox
unfolding clear
set_institution next s = record (clear s) { institution = next; loading = true }

unfoldable pub set_scenario : Scenario → Sandbox → Sandbox
set_scenario next s = record s { scenario = next }

unfoldable pub reset : Sandbox → Sandbox
unfolding clear
reset s = record (clear s) { run_id = s.run_id + 1; loading = true }

unfoldable pub has_entry : Option ContractDto → Bool
has_entry none = false
has_entry (some contract) = entry contract.contract_id
  where
    entry : Option Text → Bool
    entry none = false
    entry (some id) = is_truthy id

abbrev found : Option ContractDto → ContractDto
found none = record { contract_id = none; network = none }
found (some contract) = contract

abbrev taken : Registry → Sandbox → Sandbox
taken r s = record s {
  reachable = some r.reachable;
  contract = r.contract;
  proof = r.proof;
  loading = false;
}

-- The effect's continuation, once the registry is loaded.
unfoldable pub loaded : Registry → Sandbox → Sandbox
unfolding set_step set_step_logged has_entry
loaded r s =
    if r.reachable
    then (if has_entry r.contract
        then set_step connect ready (
            set_step_logged registry done (registry_lines s.institution (found r.contract))
              (taken r s))
        else set_step_logged registry failed
            (line warn (s.institution.name ∷ codes " has no registry entry on Testnet yet." ∷ [])
              ∷ [])
            (taken r s))
    else set_step_logged registry failed
        (line warn (codes "The sandbox backend is not reachable from this page right now." ∷ [])
          ∷ [])
        (taken r s)

-- `run` up to its `await`.
unfoldable pub start : StepId → Sandbox → Sandbox
unfolding set_step
start id s = set_step id running (record s { busy = true; pending = some id })

unfoldable pub unlock : Option StepId → Sandbox → Sandbox
unfolding set_step
unlock none s = s
unlock (some next) s = set_step next ready s

-- `setProof`, which only a published proof calls.
unfoldable pub keep_proof : Option ProofDto → Sandbox → Sandbox
keep_proof none s = s
keep_proof (some proof) s = record s { proof = some proof }

-- The state between the `await` and the `finally`.
unfoldable pub settle : StepId → Result Text RunResult → Sandbox → Sandbox
unfolding set_step_logged unlock next_step keep_proof
settle id (err thrown) s =
    set_step_logged id failed (line warn (codes "Step failed: " ∷ thrown ∷ []) ∷ []) s
settle id (ok result) s =
    if result.succeeded
    then unlock (next_step id) (set_step_logged id done result.lines (keep_proof result.proof s))
    else (if result.retry
        then set_step_logged id ready result.lines (keep_proof result.proof s)
        else set_step_logged id failed result.lines (keep_proof result.proof s))

unfoldable pub finish : Text → (id : StepId) → Result Text (Reply id) → Sandbox → Sandbox
unfolding settle runner
finish syntax_error id reply s = record (settle id (runner syntax_error id s.institution reply) s) {
  busy = false;
  pending = none;
}

-- What may happen next: the inputs are disabled while a run is out, a radio button reports a change
-- only, a step has its button while it is ready, and a request that is out may be answered.
pub data Step (syntax_error : Text) : Sandbox → Sandbox → Type 0 where
  choose_institution :
      {s : Sandbox} (next : DemoInstitution)
      → s.busy ≡ false
      → next ≢ s.institution
      → Step syntax_error s (set_institution next s)
  choose_scenario :
      {s : Sandbox} (next : Scenario) → s.busy ≡ false → Step syntax_error s (set_scenario next s)
  start_over : {s : Sandbox} → s.busy ≡ false → Step syntax_error s (reset s)
  registry_answered :
      {s : Sandbox} (answer : Result Text (Option ContractDto × Option ProofDto))
      → s.loading ≡ true
      → Step syntax_error s (loaded (load_registry answer) s)
  press_run :
      {s : Sandbox} (id : StepId)
      → s.busy ≡ false
      → at s.status id ≡ ready
      → Step syntax_error s (start id s)
  step_answered :
      {s : Sandbox} (id : StepId) (reply : Result Text (Reply id))
      → s.pending ≡ some id
      → Step syntax_error s (finish syntax_error id reply s)

pub data Reachable (syntax_error : Text) : Sandbox → Type 0 where
  opened : Reachable syntax_error initial_sandbox
  after :
      {s t : Sandbox} → Reachable syntax_error s → Step syntax_error s t → Reachable syntax_error t
