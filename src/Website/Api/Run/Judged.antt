-- ===== src/Website/Api/Run/Judged.antt =====
-- What the demo's step `prove` rests on: apps/website/src/app/api/sandbox/run/route.ts, and the
-- runner of features/product/hooks/use-sandbox.ts that judges the answer.
use solva.Prelude.{
  ◌≤◌, ◌<◌, ◌≡◌, refl, true, false, not, ◌&&◌, ◌||◌, Option, none, some, ◌==◌, ltb, leb, inl, inr,
  Bool-cases, arith, ==_iff,
}
use mathlib.Core.Path.{subst}
use solva.Prelude.Text.{Text}
use solva.Prelude.Payload.{parsed}
use solva.Prelude.Effect.{Result, ok, err, and_then, or_else}
use solva.Sdk.Orchestrator.{Response, is_ok, detail_of}
use solva.Website.Institutions.{DemoInstitution, ReserveSource, attested, onchain, demo_institution}
use solva.Website.Sandbox.{ProofDto}
use solva.Website.Sandbox.Runners.{RunReply, given, run_prove, published_result}
use solva.Website.Api.{Backend, Environment, Reply, replied, unreachable}
use solva.Website.Api.Run.{
  run_error, cycle_error, fetch_proof, cycle_request, cycle_answer, run_cycle, seed_request,
  seeded_cycle, seed, run_try, is_attested, run_for, post_run,
}

passed-published :
    (judge : DemoInstitution) (reply : RunReply)
    → (run_prove judge reply).succeeded ≡ true
    → reply.published ≡ true
unfolding run_prove published_result
passed-published judge reply h = ground arith

retry-busy :
    (judge : DemoInstitution) (reply : RunReply)
    → (run_prove judge reply).retry ≡ true
    → reply.busy ≡ true
unfolding run_prove published_result
retry-busy judge reply h = ground arith

module _ {W : Type 0} (backend : Backend W) (env : Environment) where
  -- Some request for a cycle was answered, by a response and a world of which `P` holds.
  pub Answered : Text → Option Text → (Response → W → Type 0) → Type 0
  Answered tenant scenario P =
      (u v : W) × (cycle : Response) × (backend.fetch
          (cycle_request backend env tenant scenario (backend.now u)) u
        ≡ (ok cycle, v))
      × P cycle v

  pub IsFresh : Text → Option ProofDto → W → Response → W → Type 0
  IsFresh tenant proof end cycle v =
      (200 ≤ cycle.status)
      × (cycle.status < 300)
      × (fetch_proof backend env tenant v ≡ (ok proof, end))

  Judged : Text → Option Text → RunReply → W → Type 0
  Judged tenant scenario reply end =
      (reply.published ≡ true → Answered tenant scenario (IsFresh tenant reply.proof end))
      × (reply.busy ≡ true → Answered tenant scenario (λ cycle v. (cycle.status ≡ 409) × (v ≡ end)))

  IsJudged : {E : Type 0} → Text → Option Text → Result E (Reply RunReply) × W → Type 0
  IsJudged tenant scenario (ok reply, end) = Judged tenant scenario reply.body end
  IsJudged tenant scenario (err error, end) = Unit

  error-Judged :
      (tenant : Text) (scenario : Option Text) (error : Text) (end : W)
      → Judged tenant scenario (run_error error) end
  unfolding Judged
  error-Judged tenant scenario error end = (λ p. cc, λ b. cc)

  fetched-Judged :
      (tenant : Text) (scenario : Option Text) (u v : W) (cycle : Response)
      (fetched : Result Text (Option ProofDto) × W)
      → (backend.fetch (cycle_request backend env tenant scenario (backend.now u)) u
          ≡ (ok cycle, v))
      → 200 ≤ cycle.status
      → cycle.status < 300
      → fetch_proof backend env tenant v ≡ fetched
      → IsJudged {E = Text} tenant scenario (
          and_then fetched (λ proof w. (
            ok (
                replied 200 (record {
                  error = none;
                  published = true;
                  rejected = false;
                  busy = false;
                  proof = proof;
                })),
            w,
          )))
  unfolding IsJudged Judged IsFresh Answered
  fetched-Judged tenant scenario u v cycle (ok proof, w) asked low high h =
      (λ p. (u, v, cycle, asked, (low, high, h)), λ b. cc)
  fetched-Judged tenant scenario u v cycle (err error, w) asked low high h = tt

  cycle_answer-Judged :
      (tenant : Text) (scenario : Option Text) (u v : W) (cycle : Response)
      → (backend.fetch (cycle_request backend env tenant scenario (backend.now u)) u
          ≡ (ok cycle, v))
      → IsJudged tenant scenario (cycle_answer backend env tenant cycle v)
  unfolding cycle_answer IsJudged Judged Answered
  cycle_answer-Judged tenant scenario u v cycle asked = elim (Bool-cases (cycle.status == 409)) [
    | inl busy ↦
        rw busy (λ p. cc, λ b. (u, v, cycle, asked, ((==_iff cycle.status 409).0 busy, refl)))
    | inr free ↦ elim (Bool-cases (cycle.status == 422)) [
      | inl refused ↦ rw (free, refused) (λ p. cc, λ b. cc)
      | inr accepted ↦ elim (Bool-cases (ltb cycle.status 200 || leb 300 cycle.status)) [
        | inl bad ↦
            rw (free, accepted, bad)
              (error-Judged tenant scenario
                (cycle_error backend.error_of cycle.status (detail_of cycle.body)) v)
        | inr fine ↦
            rw (free, accepted, fine)
              (fetched-Judged tenant scenario u v cycle (fetch_proof backend env tenant v) asked
                (ground arith) (ground arith) refl)
      ]
    ]
  ]

  run_cycle-Judged :
      (tenant : Text) (scenario : Option Text) (u : W) (cycle : Result Text Response × W)
      → backend.fetch (cycle_request backend env tenant scenario (backend.now u)) u ≡ cycle
      → IsJudged tenant scenario (and_then cycle (cycle_answer backend env tenant))
  unfolding IsJudged
  run_cycle-Judged tenant scenario u (ok cycle, v) h =
      cycle_answer-Judged tenant scenario u v cycle h
  run_cycle-Judged tenant scenario u (err error, v) h = tt

  seeded_cycle-Judged :
      (tenant scenario : Text) (seeded : Result Text Response × W)
      → IsJudged tenant (some scenario) (and_then seeded (seeded_cycle backend env tenant scenario))
  unfolding IsJudged seeded_cycle run_cycle
  seeded_cycle-Judged tenant scenario (err error, w) = tt
  seeded_cycle-Judged tenant scenario (ok res, w) = elim (Bool-cases (is_ok res)) [
    | inl fine ↦ rw fine (run_cycle-Judged tenant (some scenario) w _ refl)
    | inr bad ↦ rw bad (error-Judged tenant (some scenario) _ w)
  ]

  run_try-Judged :
      (tenant : Text) (source : ReserveSource) (scenario : Option Text) (w : W)
      → IsJudged tenant scenario (run_try backend env tenant source scenario w)
  unfolding run_try seed run_cycle
  run_try-Judged tenant attested (some scenario) w =
      seeded_cycle-Judged tenant scenario (backend.fetch (seed_request backend env scenario) w)
  run_try-Judged tenant attested none w = run_cycle-Judged tenant none w _ refl
  run_try-Judged tenant (onchain account code issuer) scenario w =
      run_cycle-Judged tenant scenario w _ refl

  caught-Judged :
      (tenant : Text) (scenario : Option Text) (run : Result Text (Reply RunReply) × W)
      → IsJudged tenant scenario run
      → IsJudged {E = Text} tenant scenario
          (or_else run (λ error w. (ok (replied 502 (run_error (unreachable error))), w)))
  unfolding IsJudged
  caught-Judged tenant scenario (ok reply, w) h = h
  caught-Judged tenant scenario (err error, w) h = error-Judged tenant scenario _ w

  run_for-Judged :
      (tenant : Text) (institution : DemoInstitution) (scenario : Option Text) (w : W)
      → IsJudged tenant scenario
          (run_for backend env {E = Text} tenant (some institution) scenario w)
  unfolding run_for IsJudged
  run_for-Judged tenant institution scenario w =
      elim (Bool-cases (is_attested institution.reserves && not (given scenario))) [
        | inl lacking ↦ rw lacking (error-Judged tenant scenario _ w)
        | inr fine ↦ rw fine (
            caught-Judged tenant scenario _ (run_try-Judged tenant institution.reserves scenario w))
      ]

  post_run-Judged :
      (tenant : Text) (scenario : Option Text) (institution : Option DemoInstitution) (w : W)
      → IsJudged tenant scenario (run_for backend env {E = Text} tenant institution scenario w)
  unfolding run_for IsJudged
  post_run-Judged tenant scenario none w = error-Judged tenant scenario _ w
  post_run-Judged tenant scenario (some institution) w =
      run_for-Judged tenant institution scenario w

  -- The step that makes a proof passes, for any institution it is judged for, only if the
  -- orchestrator answered a request for a cycle of the tenant, under the scenario posted, by a
  -- status of the two hundreds, and the latest proof was then read as the one the demo shows; it
  -- is offered again only if the orchestrator answered that a cycle is running, by 409, and
  -- nothing was asked after that.
  pub post_run-run_prove :
      (tenant : Text) (scenario : Option Text) (judge : DemoInstitution) (w end : W)
      (reply : Reply RunReply)
      → post_run backend env (parsed (some tenant, scenario)) w ≡ (ok reply, end)
      → ((run_prove judge reply.body).succeeded ≡ true
          → Answered tenant scenario (IsFresh tenant reply.body.proof end))
        × ((run_prove judge reply.body).retry ≡ true
            → Answered tenant scenario (λ cycle v. (cycle.status ≡ 409) × (v ≡ end)))
  unfolding post_run IsJudged Judged
  post_run-run_prove tenant scenario judge w end reply h =
      let judged =
        subst (IsJudged {E = Text} tenant scenario) h
          (post_run-Judged tenant scenario (demo_institution tenant) w) in
      (
        λ passed. judged.0 (passed-published judge reply.body passed),
        λ again. judged.1 (retry-busy judge reply.body again),
      )
