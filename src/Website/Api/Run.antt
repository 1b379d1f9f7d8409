-- ===== src/Website/Api/Run.antt =====
-- The running of a proof cycle: apps/website/src/app/api/sandbox/run/route.ts.
pub mod Judged
use solva.Prelude.{
  ℕ, Bool, true, false, not, ◌&&◌, ◌||◌, List, [], ◌∷◌, ◌++◌, Option, none, some, ◌==◌, ltb, leb,
  if◌then◌else◌,
}
use solva.Prelude.Text.{Text, codes, is_truthy, trim, print_nat, join}
use solva.Prelude.Effect.{Eff, ret, throw, ◌>>=◌, catching}
use solva.Prelude.Payload.{Payload, unreadable, null_body, parsed}
use solva.Sdk.Orchestrator.{Request, Response, is_ok, detail_of}
use solva.Website.Institutions.{DemoInstitution, ReserveSource, attested, onchain, demo_institution}
use solva.Website.Sandbox.{ProofDto}
use solva.Website.Sandbox.Runners.{RunReply, given}
use solva.Website.Api.{
  Backend, Environment, Reply, replied, json, unreachable, get, orchestrator_headers,
}

abbrev run_error : Text → RunReply
run_error error = record {
  error = some error;
  published = false;
  rejected = false;
  busy = false;
  proof = none;
}

abbrev no_reason : Text
no_reason = codes "the proof cycle could not complete"

abbrev reason_or : Text → Text
reason_or [] = no_reason
reason_or (c ∷ s) = c ∷ s

reason_of : Text → Option (Option Text) → Text
reason_of detail none = reason_or (trim detail)
reason_of detail (some none) = no_reason
reason_of detail (some (some error)) = reason_or error

unfoldable pub cycle_error : (Text → Option (Option Text)) → ℕ → Text → Text
unfolding reason_of
cycle_error error_of status detail = join (
    codes "Cycle failed (HTTP "
    ∷ print_nat status
    ∷ codes "): "
    ∷ reason_of detail (error_of detail)
    ∷ [])

abbrev or_onchain : Option Text → Text
or_onchain none = codes "onchain"
or_onchain (some scenario) = scenario

is_attested : ReserveSource → Bool
is_attested attested = true
is_attested (onchain account code issuer) = false

module _ {W : Type 0} (backend : Backend W) (env : Environment) where
  unfoldable pub latest_request : Text → Request
  latest_request tenant =
      get
        (join (
          env.orchestrator_url ∷ codes "/v1/proofs/latest?tenant_id=" ∷ backend.encode tenant ∷ []))
        (orchestrator_headers env [])

  latest_proof : Response → Eff W Text (Option ProofDto)
  latest_proof res = if is_ok res then json backend backend.proof_of res else ret none

  unfoldable pub fetch_proof : Text → Eff W Text (Option ProofDto)
  unfolding latest_proof
  fetch_proof tenant = do res ← backend.fetch (latest_request tenant); latest_proof res

  unfoldable pub cycle_request : Text → Option Text → ℕ → Request
  cycle_request tenant scenario now = record {
    method = codes "POST";
    url = env.orchestrator_url ++ codes "/v1/cycles";
    headers = orchestrator_headers env (
        (codes "content-type", codes "application/json")
        ∷ (
          codes "Idempotency-Key",
          join (codes "website-" ∷ or_onchain scenario ∷ codes "-" ∷ print_nat now ∷ []),
        )
        ∷ []);
    body = some (backend.tenant_body tenant);
  }

  cycle_answer : Text → Response → Eff W Text (Reply RunReply)
  unfolding fetch_proof cycle_error
  cycle_answer tenant cycle =
      if cycle.status == 409
      then ret (
          replied 200 (record {
            error = none;
            published = false;
            rejected = false;
            busy = true;
            proof = none;
          }))
      else (if cycle.status == 422
          then ret (
              replied 200 (record {
                error = none;
                published = false;
                rejected = true;
                busy = false;
                proof = none;
              }))
          else (if ltb cycle.status 200 || leb 300 cycle.status
              then ret (
                  replied 200
                    (run_error (cycle_error backend.error_of cycle.status (detail_of cycle.body))))
              else (do
                proof ← fetch_proof tenant
                ret (
                    replied 200 (record {
                      error = none;
                      published = true;
                      rejected = false;
                      busy = false;
                      proof = proof;
                    })))))

  run_cycle : Text → Option Text → Eff W Text (Reply RunReply)
  unfolding cycle_request cycle_answer
  run_cycle tenant scenario w =
      (do
        cycle ← backend.fetch (cycle_request tenant scenario (backend.now w))
        cycle_answer tenant cycle)
        w

  unfoldable pub seed_request : Text → Request
  seed_request scenario = record {
    method = codes "POST";
    url = join (env.sandbox_url ∷ codes "/admin/scenarios/" ∷ backend.encode scenario ∷ []);
    headers = [];
    body = none;
  }

  seeded_cycle : Text → Text → Response → Eff W Text (Reply RunReply)
  unfolding run_cycle
  seeded_cycle tenant scenario seeded =
      if is_ok seeded
      then run_cycle tenant (some scenario)
      else ret (replied 502 (run_error (codes "sandbox rejected scenario " ++ scenario)))

  seed : Text → Text → Eff W Text (Reply RunReply)
  unfolding seeded_cycle seed_request
  seed tenant scenario = do
    seeded ← backend.fetch (seed_request scenario)
    seeded_cycle tenant scenario seeded

  -- The `try` block.
  run_try : Text → ReserveSource → Option Text → Eff W Text (Reply RunReply)
  unfolding seed
  run_try tenant attested (some scenario) = seed tenant scenario
  run_try tenant attested none = run_cycle tenant none
  run_try tenant (onchain account code issuer) scenario = run_cycle tenant scenario

  run_for : {E : Type 0} → Text → Option DemoInstitution → Option Text → Eff W E (Reply RunReply)
  unfolding run_try is_attested given
  run_for tenant none scenario =
      ret (replied 400 (run_error (codes "a known tenantId is required")))
  run_for tenant (some institution) scenario =
      if is_attested institution.reserves && not (given scenario)
      then ret (replied 400 (run_error (codes "scenario is required")))
      else catching (run_try tenant institution.reserves scenario)
          (λ error. ret (replied 502 (run_error (unreachable error))))

  -- `POST`, for the body's `tenantId` and `scenario`; those of `null` are read outside the `try`.
  unfoldable pub post_run : Payload (Option Text × Option Text) → Eff W Text (Reply RunReply)
  unfolding run_for
  post_run unreadable = ret (replied 400 (run_error (codes "invalid request body")))
  post_run null_body = throw backend.null_error
  post_run (parsed (none, scenario)) = run_for [] none scenario
  post_run (parsed (some tenant, scenario)) = run_for tenant (demo_institution tenant) scenario
