-- ===== src/Website/Sandbox/Progress/Settled.antt =====
-- Where an answer leaves the demo's run (apps/website/src/features/product/hooks/use-sandbox.ts).
use solva.Prelude.{◌≡◌, refl, ap, ◌∙◌, Bool, List, [], ◌∷◌, true, false, Option, none, some}
use solva.Prelude.Text.{Text, codes}
use solva.Prelude.Effect.{Result, ok, err}
use solva.Website.Sandbox.{
  StepId, registry, connect, reserves, prove, verify, inclusion, StepStatus, ready, running, done,
  failed, Statuses, put, next_step, ProofDto, LogLine, warn,
}
use solva.Website.Sandbox.Lines.{line}
use solva.Website.Sandbox.Runners.{RunResult}
use solva.Website.Sandbox.Hook.{Sandbox, unlock, keep_proof, set_step, set_step_logged, settle}
use solva.Website.Sandbox.Progress.{
  come_to, put-next, put-status, Rests, can_start, gave_up, came_through,
}

-- A status that some run, waiting for the visitor, has come to.
abbrev pub AtRest : Statuses → Type 0
AtRest t = (j : StepId) × (v : StepStatus) × Rests j v × (t ≡ come_to j v)

pub keep_proof-status :
    (proof : Option ProofDto) (s : Sandbox) → (keep_proof proof s).status ≡ s.status
unfolding keep_proof
keep_proof-status none s = refl
keep_proof-status (some proof) s = refl

unlock-AtRest :
    (i : StepId) (s : Sandbox) → s.status ≡ come_to i done → AtRest (unlock (next_step i) s).status
unfolding unlock next_step set_step
unlock-AtRest registry s st =
    (connect, ready, can_start, ap (put connect ready) st ∙ put-next registry connect refl)
unlock-AtRest connect s st =
    (reserves, ready, can_start, ap (put reserves ready) st ∙ put-next connect reserves refl)
unlock-AtRest reserves s st =
    (prove, ready, can_start, ap (put prove ready) st ∙ put-next reserves prove refl)
unlock-AtRest prove s st =
    (verify, ready, can_start, ap (put verify ready) st ∙ put-next prove verify refl)
unlock-AtRest verify s st =
    (inclusion, ready, can_start, ap (put inclusion ready) st ∙ put-next verify inclusion refl)
unlock-AtRest inclusion s st = (inclusion, done, came_through, st)

set_step_logged-status :
    (i : StepId) (w : StepStatus) (lines : List LogLine) (s : Sandbox)
    → s.status ≡ come_to i running
    → (set_step_logged i w lines s).status ≡ come_to i w
unfolding set_step_logged
set_step_logged-status i w lines s st = put-status i running w st

pub settle-AtRest :
    (i : StepId) (outcome : Result Text RunResult) (s : Sandbox)
    → s.status ≡ come_to i running
    → AtRest (settle i outcome s).status
unfolding settle
settle-AtRest i (err thrown) s st = (
  i,
  failed,
  gave_up,
  set_step_logged-status i failed (line warn (codes "Step failed: " ∷ thrown ∷ []) ∷ []) s st,
)
settle-AtRest i (ok result) s st = go result.succeeded result.retry refl refl
  where
    kept : (keep_proof result.proof s).status ≡ come_to i running
    kept = keep_proof-status result.proof s ∙ st

    go :
        (good again : Bool)
        → result.succeeded ≡ good
        → result.retry ≡ again
        → AtRest (settle i (ok result) s).status
    go true again h k = simp h (
        unlock-AtRest i (set_step_logged i done result.lines (keep_proof result.proof s))
          (set_step_logged-status i done result.lines (keep_proof result.proof s) kept))
    go false true h k =
        simp (h, k)
          (
            i,
            ready,
            can_start,
            set_step_logged-status i ready result.lines (keep_proof result.proof s) kept,
          )
    go false false h k =
        simp (h, k)
          (
            i,
            failed,
            gave_up,
            set_step_logged-status i failed result.lines (keep_proof result.proof s) kept,
          )

keep_proof-loading :
    (proof : Option ProofDto) (s : Sandbox) → (keep_proof proof s).loading ≡ s.loading
unfolding keep_proof
keep_proof-loading none s = refl
keep_proof-loading (some proof) s = refl

unlock-loading : (next : Option StepId) (s : Sandbox) → (unlock next s).loading ≡ s.loading
unfolding unlock set_step
unlock-loading none s = refl
unlock-loading (some next) s = refl

pub settle-loading :
    (i : StepId) (outcome : Result Text RunResult) (s : Sandbox)
    → (settle i outcome s).loading ≡ s.loading
unfolding settle set_step_logged
settle-loading i (err thrown) s = refl
settle-loading i (ok result) s = go result.succeeded result.retry refl refl
  where
    kept : (keep_proof result.proof s).loading ≡ s.loading
    kept = keep_proof-loading result.proof s

    go :
        (good again : Bool)
        → result.succeeded ≡ good
        → result.retry ≡ again
        → (settle i (ok result) s).loading ≡ s.loading
    go true again h k = simp h (
        unlock-loading (next_step i)
          (set_step_logged i done result.lines (keep_proof result.proof s))
        ∙ kept)
    go false true h k = simp (h, k) kept
    go false false h k = simp (h, k) kept
