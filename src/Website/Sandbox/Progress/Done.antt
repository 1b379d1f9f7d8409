-- ===== src/Website/Sandbox/Progress/Done.antt =====
-- Which answers make a step of the demo's run done
-- (apps/website/src/features/product/hooks/use-sandbox.ts).
use mathlib.Core.Path.{subst}
use solva.Prelude.{
  ◌≡◌, ◌≢◌, ◌⊎◌, inl, inr, refl, sym, ap, ◌∙◌, Bool, true, false, List, [], ◌∷◌, Option, none, some,
}
use solva.Prelude.Text.{Text, codes}
use solva.Prelude.Effect.{Result, ok, err}
use solva.Website.Sandbox.{
  StepId, registry, connect, reserves, prove, verify, inclusion, StepStatus, locked, ready, running,
  done, failed, Statuses, at, put, next_step, ProofDto, LogLine, warn,
}
use solva.Website.Sandbox.Lines.{line}
use solva.Website.Sandbox.Runners.{RunResult, Reply, runner}
use solva.Website.Sandbox.Hook.{
  Sandbox, Registry, has_entry, unlock, keep_proof, starting_status, initial_sandbox, set_step,
  set_step_logged, clear, set_institution, set_scenario, reset, load_registry, loaded, start,
  settle, finish, Step, choose_institution, choose_scenario, start_over, registry_answered,
  press_run, step_answered, Reachable, opened, after,
}
use solva.Website.Sandbox.Progress.Settled.{keep_proof-status}

-- What a step that is done after another status was put was before.
at-put-done :
    (i k : StepId) (w : StepStatus) (t : Statuses)
    → at (put i w t) k ≡ done
    → ((k ≡ i) × (w ≡ done)) ⊎ (at t k ≡ done)
at-put-done registry registry w t h = inl (refl, h)
at-put-done connect connect w t h = inl (refl, h)
at-put-done reserves reserves w t h = inl (refl, h)
at-put-done prove prove w t h = inl (refl, h)
at-put-done verify verify w t h = inl (refl, h)
at-put-done inclusion inclusion w t h = inl (refl, h)
at-put-done _ _ w t h = inr h

-- A runner that ended, and well.
abbrev pub Passed : Result Text RunResult → Type 0
Passed outcome = (result : RunResult) × (outcome ≡ ok result) × (result.succeeded ≡ true)

not_new : {P : Type 0} {v w : StepStatus} → w ≢ done → (P × (w ≡ done)) ⊎ (v ≡ done) → v ≡ done
not_new other (inl (_, e)) = absurd (other e)
not_new other (inr old) = old

unlock-done :
    (next : Option StepId) (k : StepId) (s : Sandbox)
    → at (unlock next s).status k ≡ done
    → at s.status k ≡ done
unfolding unlock set_step
unlock-done none k s h = h
unlock-done (some next) k s h = not_new (λ e. cc) (at-put-done next k ready s.status h)

set_step_logged-done :
    (i k : StepId) (w : StepStatus) (lines : List LogLine) (s : Sandbox)
    → at (set_step_logged i w lines s).status k ≡ done
    → ((k ≡ i) × (w ≡ done)) ⊎ (at s.status k ≡ done)
unfolding set_step_logged
set_step_logged-done i k w lines s h = at-put-done i k w s.status h

keep_proof-institution :
    (proof : Option ProofDto) (s : Sandbox) → (keep_proof proof s).institution ≡ s.institution
unfolding keep_proof
keep_proof-institution none s = refl
keep_proof-institution (some proof) s = refl

unlock-institution :
    (next : Option StepId) (s : Sandbox) → (unlock next s).institution ≡ s.institution
unfolding unlock set_step
unlock-institution none s = refl
unlock-institution (some next) s = refl

settle-done :
    (i k : StepId) (outcome : Result Text RunResult) (s : Sandbox)
    → at (settle i outcome s).status k ≡ done
    → ((k ≡ i) × Passed outcome) ⊎ (at s.status k ≡ done)
unfolding settle
settle-done i k (err thrown) s h = inr (
    not_new (λ e. cc)
      (set_step_logged-done i k failed (line warn (codes "Step failed: " ∷ thrown ∷ []) ∷ []) s h))
settle-done i k (ok result) s h = go result.succeeded result.retry refl refl h
  where
    kept : Sandbox
    kept = keep_proof result.proof s

    old : at kept.status k ≡ done → at s.status k ≡ done
    old e = ap (λ t. at t k) (sym (keep_proof-status result.proof s)) ∙ e

    go :
        (good again : Bool)
        → result.succeeded ≡ good
        → result.retry ≡ again
        → at (settle i (ok result) s).status k ≡ done
        → ((k ≡ i) × Passed (ok result)) ⊎ (at s.status k ≡ done)
    go true again g r e =
        let same : settle i (ok result) s
            ≡ unlock (next_step i) (set_step_logged i done result.lines kept) =
          simp g in
        elim (set_step_logged-done i k done result.lines kept (
          unlock-done (next_step i) k (set_step_logged i done result.lines kept)
            (sym (ap (λ t. at t.status k) same) ∙ e))) [
              | inl (here, _) ↦ inl (here, (result, refl, g))
              | inr before ↦ inr (old before)
            ]
    go false true g r e =
        let same : settle i (ok result) s ≡ set_step_logged i ready result.lines kept =
          simp (g, r) in
        let e2 : at (set_step_logged i ready result.lines kept).status k ≡ done =
          sym (ap (λ t. at t.status k) same) ∙ e in
        inr (old (not_new (λ e. cc) (set_step_logged-done i k ready result.lines kept e2)))
    go false false g r e =
        let same : settle i (ok result) s ≡ set_step_logged i failed result.lines kept =
          simp (g, r) in
        let e2 : at (set_step_logged i failed result.lines kept).status k ≡ done =
          sym (ap (λ t. at t.status k) same) ∙ e in
        inr (old (not_new (λ e. cc) (set_step_logged-done i k failed result.lines kept e2)))

settle-institution :
    (i : StepId) (outcome : Result Text RunResult) (s : Sandbox)
    → (settle i outcome s).institution ≡ s.institution
unfolding settle set_step_logged
settle-institution i (err thrown) s = refl
settle-institution i (ok result) s = go result.succeeded result.retry refl refl
  where
    kept : Sandbox
    kept = keep_proof result.proof s

    go :
        (good again : Bool)
        → result.succeeded ≡ good
        → result.retry ≡ again
        → (settle i (ok result) s).institution ≡ s.institution
    go true again g r = simp g (
        unlock-institution (next_step i) (set_step_logged i done result.lines kept)
        ∙ keep_proof-institution result.proof s)
    go false true g r = simp (g, r) (keep_proof-institution result.proof s)
    go false false g r = simp (g, r) (keep_proof-institution result.proof s)

locked_not_done : locked ≢ done
locked_not_done h = cc

running_not_done : running ≢ done
running_not_done h = cc

starting-not_done : (k : StepId) → at starting_status k ≢ done
starting-not_done registry h = running_not_done h
starting-not_done connect h = locked_not_done h
starting-not_done reserves h = locked_not_done h
starting-not_done prove h = locked_not_done h
starting-not_done verify h = locked_not_done h
starting-not_done inclusion h = locked_not_done h

-- What is known of a step that is done besides the first, when the registry's answer is taken.
loaded-done :
    (r : Registry) (s : Sandbox) (k : StepId)
    → k ≢ registry
    → at (loaded r s).status k ≡ done
    → (at s.status k ≡ done) × (s.institution ≡ (loaded r s).institution)
unfolding loaded set_step set_step_logged
loaded-done r s k other h = go r.reachable (has_entry r.contract) refl refl
  where
    first : (w : StepStatus) → at (put registry w s.status) k ≡ done → at s.status k ≡ done
    first w e = elim (at-put-done registry k w s.status e) [
      | inl (same, _) ↦ absurd (other same)
      | inr old ↦ old
    ]

    go :
        (up entry : Bool)
        → r.reachable ≡ up
        → has_entry r.contract ≡ entry
        → (at s.status k ≡ done) × (s.institution ≡ (loaded r s).institution)
    go false entry a b =
        let same : (loaded r s).status ≡ put registry failed s.status = simp a in
        (first failed (sym (ap (λ t. at t k) same) ∙ h), simp a)
    go true false a b =
        let same : (loaded r s).status ≡ put registry failed s.status = simp (a, b) in
        (first failed (sym (ap (λ t. at t k) same) ∙ h), simp (a, b))
    go true true a b =
        let same : (loaded r s).status ≡ put connect ready (put registry done s.status) =
          simp (a, b) in
        (
          first done (
              not_new (λ e. cc)
                (at-put-done connect k ready (put registry done s.status)
                  (sym (ap (λ t. at t k) same) ∙ h))),
          simp (a, b),
        )

module _ (syntax_error : Text) where
  -- A step within one run: neither another institution is chosen nor the run started over.
  abbrev pub IsWithin : {s t : Sandbox} → Step syntax_error s t → Type 0
  IsWithin (choose_institution next idle other) = ⊥
  IsWithin (choose_scenario next idle) = Unit
  IsWithin (start_over idle) = ⊥
  IsWithin (registry_answered answer out) = Unit
  IsWithin (press_run id idle r) = Unit
  IsWithin (step_answered id reply out) = Unit

  -- Any number of steps of one run, one after the other.
  pub data Steps : Sandbox → Sandbox → Type 0 where
    here : {s : Sandbox} → Steps s s
    further :
        {s t u : Sandbox} → Steps s t → (step : Step syntax_error t u) → IsWithin step → Steps s u

  -- In the run that led to the state, from a state that was reached, and for its institution, the
  -- request of step `k` was answered, and the answer passed its judgement.
  abbrev pub Answered : Sandbox → StepId → Type 0
  Answered s k =
      (t : Sandbox) × (reply : Result Text (Reply k)) × Reachable syntax_error t
      × (t.pending ≡ some k)
      × (t.institution ≡ s.institution)
      × Passed (runner syntax_error k t.institution reply)
      × Steps (finish syntax_error k reply t) s

  done_move :
      {s t : Sandbox} (k : StepId)
      → Reachable syntax_error s
      → (step : Step syntax_error s t) → k ≢ registry
      → at t.status k ≡ done
      → ((at s.status k ≡ done) × (s.institution ≡ t.institution) × IsWithin step) ⊎ Answered t k
  unfolding set_institution set_scenario reset clear start set_step finish
  done_move k history (choose_institution next idle changed) other h =
      absurd (starting-not_done k h)
  done_move k history (choose_scenario next idle) other h = inl (h, refl, tt)
  done_move k history (start_over idle) other h = absurd (starting-not_done k h)
  done_move {s} k history (registry_answered answer out) other h =
      let (old, same) = loaded-done (load_registry answer) s k other h in inl (old, same, tt)
  done_move {s} k history (press_run id idle r) other h =
      inl (not_new (λ e. cc) (at-put-done id k running s.status h), refl, tt)
  done_move {s} k history (step_answered id reply out) other h =
      let outcome = runner syntax_error id s.institution reply in
      elim (settle-done id k outcome s h) [
        | inl (same, passed) ↦ inr (
            subst (Answered (finish syntax_error id reply s)) (sym same)
              (s, reply, history, out, sym (settle-institution id outcome s), passed, here))
        | inr old ↦ inl (old, sym (settle-institution id outcome s), tt)
      ]

  -- A step behind the first that is done was answered, and the answer passed its judgement.
  pub done-Answered :
      {s : Sandbox} (k : StepId)
      → Reachable syntax_error s
      → k ≢ registry
      → at s.status k ≡ done
      → Answered s k
  unfolding initial_sandbox
  done-Answered k opened other h = absurd (starting-not_done k h)
  done-Answered {s} k (after history step) other h = elim (done_move k history step other h) [
    | inl (old, same, within) ↦
        let (t, reply, before, out, alike, passed, steps) = done-Answered k history other old in
        (t, reply, before, out, alike ∙ same, passed, further steps step within)
    | inr new ↦ new
  ]
