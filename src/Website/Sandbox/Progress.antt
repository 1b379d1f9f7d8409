-- ===== src/Website/Sandbox/Progress.antt =====
-- The order of the demo's steps (apps/website/src/features/product/hooks/use-sandbox.ts).
pub mod Settled
pub mod Reached
pub mod Done
use solva.Prelude.{
  ℕ, ◌≡◌, ◌≢◌, ◌<◌, ◌==◌, ltb, refl, sym, ap, ◌∙◌, Bool, List, [], ◌∷◌, true, false, ◌⊎◌, inl, inr,
  Option, none, some, arith, if◌then◌else◌,
}
use solva.Prelude.Text.{Text, codes}
use solva.Prelude.Effect.{Result, ok, err}
use solva.Website.Sandbox.{
  StepId, registry, connect, reserves, prove, verify, inclusion, StepStatus, locked, ready, running,
  done, failed, Statuses, at, put, next_step, completed_steps, ProofDto, LogLine, LogKind, warn,
}
use solva.Website.Sandbox.Lines.{line}
use solva.Website.Sandbox.Runners.{RunResult, Reply, runner}
use solva.Website.Sandbox.Hook.{
  Sandbox, Registry, has_entry, unlock, keep_proof, starting_status, initial_sandbox, set_step,
  set_step_logged, clear, set_institution, set_scenario, reset, load_registry, loaded, start,
  settle, finish, Step, choose_institution, choose_scenario, start_over, registry_answered,
  press_run, step_answered, Reachable, opened, after,
}

-- The position of a step in the run.
unfoldable pub rank : StepId → ℕ
rank registry = 0
rank connect = 1
rank reserves = 2
rank prove = 3
rank verify = 4
rank inclusion = 5

step_of : ℕ → StepId
step_of n =
    if n == 0
    then registry
    else (if n == 1
        then connect
        else (if n == 2
            then reserves
            else (if n == 3 then prove else (if n == 4 then verify else inclusion))))

step_of-rank : (id : StepId) → step_of (rank id) ≡ id
unfolding step_of rank
step_of-rank registry = refl
step_of-rank connect = refl
step_of-rank reserves = refl
step_of-rank prove = refl
step_of-rank verify = refl
step_of-rank inclusion = refl

-- A run that has come to step `i`, which stands at `v`: what is before it is done, what is behind
-- it locked.
unfoldable pub status_at : StepId → StepStatus → StepId → StepStatus
unfolding rank
status_at i v k = if ltb (rank k) (rank i) then done else (if rank k == rank i then v else locked)

unfoldable pub come_to : StepId → StepStatus → Statuses
unfolding status_at
come_to i v = record {
  registry = status_at i v registry;
  connect = status_at i v connect;
  reserves = status_at i v reserves;
  prove = status_at i v prove;
  verify = status_at i v verify;
  inclusion = status_at i v inclusion;
}

at-come_to : (i : StepId) (v : StepStatus) (k : StepId) → at (come_to i v) k ≡ status_at i v k
unfolding come_to
at-come_to i v registry = refl
at-come_to i v connect = refl
at-come_to i v reserves = refl
at-come_to i v prove = refl
at-come_to i v verify = refl
at-come_to i v inclusion = refl

put-come_to : (i : StepId) (v w : StepStatus) → put i w (come_to i v) ≡ come_to i w
unfolding come_to status_at rank
put-come_to registry v w = refl
put-come_to connect v w = refl
put-come_to reserves v w = refl
put-come_to prove v w = refl
put-come_to verify v w = refl
put-come_to inclusion v w = refl

put-next : (i k : StepId) → next_step i ≡ some k → put k ready (come_to i done) ≡ come_to k ready
unfolding come_to status_at rank next_step
put-next registry connect h = refl
put-next connect reserves h = refl
put-next reserves prove h = refl
put-next prove verify h = refl
put-next verify inclusion h = refl
put-next _ _ h = cc

-- Where a run that waits for the visitor stands.
pub data Rests : StepId → StepStatus → Type 0 where
  can_start : {i : StepId} → Rests i ready
  gave_up : {i : StepId} → Rests i failed
  came_through : Rests inclusion done

-- The registry is being read, or the visitor is to act, or one step runs.
pub data Phase (s : Sandbox) : Type 0 where
  checking :
      s.status ≡ come_to registry running
      → s.busy ≡ false
      → s.pending ≡ none
      → s.loading ≡ true
      → Phase s
  waiting :
      (i : StepId) (v : StepStatus)
      → Rests i v
      → s.status ≡ come_to i v
      → s.busy ≡ false
      → s.pending ≡ none
      → s.loading ≡ false
      → Phase s
  working :
      (i : StepId)
      → s.status ≡ come_to i running
      → s.busy ≡ true
      → s.pending ≡ some i
      → s.loading ≡ false
      → Phase s

starting-come_to : starting_status ≡ come_to registry running
unfolding come_to status_at rank
starting-come_to = refl

-- A step that is ready where the run has come to `i` is `i` itself.
ready-at-come_to :
    (i : StepId) (v : StepStatus) (k : StepId) → at (come_to i v) k ≡ ready → (k ≡ i) × (v ≡ ready)
unfolding status_at
ready-at-come_to i v k h = go (sym (at-come_to i v k) ∙ h)
  where
    same : rank k ≡ rank i → k ≡ i
    same e = sym (step_of-rank k) ∙ ap step_of e ∙ step_of-rank i

    go : status_at i v k ≡ ready → (k ≡ i) × (v ≡ ready)
    go e = (same (ground arith), ground arith)

put-status :
    {t : Statuses} (i : StepId) (v w : StepStatus) → t ≡ come_to i v → put i w t ≡ come_to i w
put-status {t} i v w h = ap (put i w) h ∙ put-come_to i v w

unlocks-connect : next_step registry ≡ some connect
unfolding next_step
unlocks-connect = refl

-- The effect's continuation ends the reading of the registry.
loaded-Phase :
    (r : Registry) (s : Sandbox)
    → s.status ≡ come_to registry running
    → s.busy ≡ false
    → s.pending ≡ none
    → Phase (loaded r s)
unfolding loaded set_step set_step_logged
loaded-Phase r s st b p = go r.reachable (has_entry r.contract) refl refl
  where
    go : (up entry : Bool) → r.reachable ≡ up → has_entry r.contract ≡ entry → Phase (loaded r s)
    go false entry h k =
        simp h (waiting registry failed gave_up (put-status registry running _ st) b p refl)
    go true false h k =
        simp (h, k) (waiting registry failed gave_up (put-status registry running _ st) b p refl)
    go true true h k =
        simp (h, k)
          (waiting connect ready can_start
            (ap (put connect ready) (put-status registry running _ st)
              ∙ put-next registry connect unlocks-connect)
            b p refl)
