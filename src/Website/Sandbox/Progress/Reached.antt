-- ===== src/Website/Sandbox/Progress/Reached.antt =====
-- What holds in every state of the demo's run that can be reached, and what follows for a visitor
-- (apps/website/src/features/product/hooks/use-sandbox.ts).
use solva.Prelude.{
  dec_lt, ◌≡◌, ◌≢◌, ◌<◌, refl, sym, ap, ◌∙◌, true, false, ◌⊎◌, ◌↔◌, inl, inr, none, some, arith,
}
use solva.Prelude.Text.{Text}
use solva.Prelude.Effect.{Result}
use solva.Website.Sandbox.{
  StepId, registry, StepStatus, locked, ready, running, done, failed, at, completed_steps, is_done,
}
use solva.Website.Sandbox.Runners.{Reply, runner}
use solva.Website.Sandbox.Hook.{
  Sandbox, Registry, starting_status, initial_sandbox, set_step, clear, set_institution,
  set_scenario, reset, load_registry, loaded, start, finish, Step, choose_institution,
  choose_scenario, start_over, registry_answered, press_run, step_answered, Reachable, opened,
  after,
}
use solva.Website.Sandbox.Progress.{
  rank, status_at, come_to, at-come_to, ready-at-come_to, put-status, starting-come_to, Phase,
  checking, waiting, working, loaded-Phase,
}
use solva.Website.Sandbox.Progress.Settled.{settle-AtRest, settle-loading}

before-done :
    (i : StepId) (v : StepStatus) (id k : StepId)
    → status_at i v id ≢ locked
    → rank k < rank id
    → status_at i v k ≡ done
unfolding status_at
before-done i v id k live before = elim (dec_lt (rank i) (rank id)) [
  | yes behind ↦ let shut : status_at i v id ≡ locked = ground arith in absurd (live shut)
  | no reached ↦ ground arith
]

completed-come_to :
    (i : StepId) (v : StepStatus)
    → (completed_steps (come_to i v) ≡ 6) ↔ ((come_to i v).inclusion ≡ done)
unfolding completed_steps is_done come_to status_at rank
completed-come_to _ _ = (λ h. ground arith, λ h. ground arith)

failed-at-come_to :
    (i : StepId) (v : StepStatus) (k : StepId) → at (come_to i v) k ≡ failed → v ≡ failed
unfolding status_at
failed-at-come_to i v k h = go (sym (at-come_to i v k) ∙ h)
  where
    go : status_at i v k ≡ failed → v ≡ failed
    go e = ground arith

module _ (syntax_error : Text) where
  finish-Phase :
      (i : StepId) (reply : Result Text (Reply i)) (s : Sandbox)
      → s.status ≡ come_to i running
      → s.loading ≡ false
      → Phase (finish syntax_error i reply s)
  unfolding finish
  finish-Phase i reply s st l =
      let outcome = runner syntax_error i s.institution reply in
      let (j, v, rests, came) = settle-AtRest i outcome s st in
      waiting j v rests came refl refl (settle-loading i outcome s ∙ l)

  start-Phase :
      (id : StepId) (s : Sandbox)
      → Phase s
      → s.busy ≡ false
      → at s.status id ≡ ready
      → Phase (start id s)
  unfolding start set_step
  start-Phase id s (checking st b p l) idle r =
      let (_, absurd) = ready-at-come_to registry running id (sym (ap (λ t. at t id) st) ∙ r) in cc
  start-Phase id s (waiting i v rests st b p l) idle r =
      let (same, _) = ready-at-come_to i v id (sym (ap (λ t. at t id) st) ∙ r) in
      working id (put-status id v running (rw same st)) refl refl l
  start-Phase id s (working i st b p l) idle r = cc

  idle-pending : (s : Sandbox) → Phase s → s.busy ≡ false → s.pending ≡ none
  idle-pending s (checking st b p l) idle = p
  idle-pending s (waiting i v rests st b p l) idle = p
  idle-pending s (working i st b p l) idle = cc

  loaded_once : (r : Registry) (s : Sandbox) → Phase s → s.loading ≡ true → Phase (loaded r s)
  loaded_once r s (checking st b p l) out = loaded-Phase r s st b p
  loaded_once r s (waiting i v rests st b p l) out = cc
  loaded_once r s (working i st b p l) out = cc

  finish_once :
      (id : StepId) (reply : Result Text (Reply id)) (s : Sandbox)
      → Phase s
      → s.pending ≡ some id
      → Phase (finish syntax_error id reply s)
  finish_once id reply s (checking st b p l) out = cc
  finish_once id reply s (waiting i v rests st b p l) out = cc
  finish_once id reply s (working i st b p l) out =
      let same : i ≡ id = cc in finish-Phase id reply s (st ∙ ap (λ k. come_to k running) same) l

  move-Phase : {s t : Sandbox} → Step syntax_error s t → Phase s → Phase t
  unfolding set_institution set_scenario reset clear
  move-Phase {s} (choose_institution next idle other) phase =
      checking starting-come_to idle (idle-pending s phase idle) refl
  move-Phase (choose_scenario next idle) (checking st b p l) = checking st b p l
  move-Phase (choose_scenario next idle) (waiting i v rests st b p l) = waiting i v rests st b p l
  move-Phase (choose_scenario next idle) (working i st b p l) = working i st b p l
  move-Phase {s} (start_over idle) phase =
      checking starting-come_to idle (idle-pending s phase idle) refl
  move-Phase {s} (registry_answered answer out) phase =
      loaded_once (load_registry answer) s phase out
  move-Phase {s} (press_run id idle r) phase = start-Phase id s phase idle r
  move-Phase {s} (step_answered id reply out) phase = finish_once id reply s phase out

  -- Whatever the visitor does and whatever comes back, in whatever order: either the registry is
  -- being read and nothing else is under way, or no request is out and the run stands at a step that
  -- is ready, has failed or is the last one and done, or exactly one step runs; and always all the
  -- steps before the one it stands at are done and all those behind it locked.
  pub reachable-Phase : {s : Sandbox} → Reachable syntax_error s → Phase s
  unfolding initial_sandbox
  reachable-Phase opened = checking starting-come_to refl refl refl
  reachable-Phase (after history step) = move-Phase step (reachable-Phase history)

  -- A step that is not locked (it can be run, runs, is done or has failed) has every step before it
  -- done.
  pub unlocked_in_order :
      {s : Sandbox} (id k : StepId)
      → Reachable syntax_error s
      → at s.status id ≢ locked
      → rank k < rank id
      → at s.status k ≡ done
  unlocked_in_order {s} id k history live before = go (reachable-Phase history)
    where
      from : (i : StepId) (v : StepStatus) → s.status ≡ come_to i v → at s.status k ≡ done
      from i v st =
          ap (λ t. at t k) st
          ∙ at-come_to i v k
          ∙ before-done i v id k (λ e. live (ap (λ t. at t id) st ∙ at-come_to i v id ∙ e)) before

      go : Phase s → at s.status k ≡ done
      go (checking st b p l) = from registry running st
      go (waiting i v rests st b p l) = from i v st
      go (working i st b p l) = from i running st

  -- The counter shows six of six exactly when the last step, the inclusion check, is done.
  pub completed_iff :
      {s : Sandbox}
      → Reachable syntax_error s
      → (completed_steps s.status ≡ 6) ↔ (s.status.inclusion ≡ done)
  completed_iff {s} history = go (reachable-Phase history)
    where
      from :
          (i : StepId) (v : StepStatus)
          → s.status ≡ come_to i v
          → (completed_steps s.status ≡ 6) ↔ (s.status.inclusion ≡ done)
      from i v st = simp st (completed-come_to i v)

      go : Phase s → (completed_steps s.status ≡ 6) ↔ (s.status.inclusion ≡ done)
      go (checking st b p l) = from registry running st
      go (waiting i v rests st b p l) = from i v st
      go (working i st b p l) = from i running st

  failed_idle :
      {s : Sandbox} (k : StepId)
      → Phase s
      → at s.status k ≡ failed
      → (s.pending ≡ none) × (s.loading ≡ false) × ((id : StepId) → at s.status id ≢ ready)
  failed_idle {s} k (checking st b p l) broken =
      let absurd = failed-at-come_to registry running k (sym (ap (λ t. at t k) st) ∙ broken) in cc
  failed_idle {s} k (working i st b p l) broken =
      let absurd = failed-at-come_to i running k (sym (ap (λ t. at t k) st) ∙ broken) in cc
  failed_idle {s} k (waiting i v rests st b p l) broken = (p, l, never)
    where
      gone : v ≡ failed
      gone = failed-at-come_to i v k (sym (ap (λ t. at t k) st) ∙ broken)

      never : (id : StepId) → at s.status id ≢ ready
      never id r =
          let (_, live) = ready-at-come_to i v id (sym (ap (λ t. at t id) st) ∙ r) in
          let dead = gone in cc

  failed_move :
      {s t : Sandbox} (k : StepId)
      → Step syntax_error s t
      → Phase s
      → at s.status k ≡ failed
      → (t.status ≡ s.status) ⊎ (t.status ≡ starting_status)
  unfolding set_institution set_scenario reset clear
  failed_move k (choose_institution next idle other) phase broken = inr refl
  failed_move k (choose_scenario next idle) phase broken = inl refl
  failed_move k (start_over idle) phase broken = inr refl
  failed_move k (registry_answered answer out) phase broken =
      let (_, here, _) = failed_idle k phase broken in cc
  failed_move {s} k (press_run id idle r) phase broken =
      let (_, _, never) = failed_idle k phase broken in absurd (never id r)
  failed_move k (step_answered id reply out) phase broken =
      let (here, _, _) = failed_idle k phase broken in cc

  -- Once a step has failed, whatever happens next leaves the statuses as they are or puts all of them
  -- back to the start.
  pub failed_ends_run :
      {s t : Sandbox} (k : StepId)
      → Reachable syntax_error s
      → at s.status k ≡ failed
      → Step syntax_error s t
      → (t.status ≡ s.status) ⊎ (t.status ≡ starting_status)
  failed_ends_run {s} k history broken step = failed_move k step (reachable-Phase history) broken
