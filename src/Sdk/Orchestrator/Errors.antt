-- ===== src/Sdk/Orchestrator/Errors.antt =====
-- What `request` of packages/sdk-ts/src/orchestrator-client.ts throws.
use solva.Prelude.{
  ◌≡◌, ◌⊎◌, inl, inr, refl, true, false, Option, none, some, ◌++◌, arith, Bool-cases,
}
use solva.Prelude.Text.{Text, codes}
use solva.Prelude.Effect.{Result, ok, err}
use solva.Sdk.{Thrown, orchestrator_error, foreign}
use solva.Sdk.Orchestrator.{
  Platform, Orchestrator, Request, Response, is_ok, headers_of, answer, refusal, json_of, request,
}

-- The request that a call sends.
abbrev pub sent : Orchestrator → Text → Text → Option Text → Request
sent o method path body = record {
  method = method;
  url = o.base_url ++ path;
  headers = headers_of o;
  body = body;
}

-- Which failure a thrown value reports: no response, a response that refuses, or a response with a
-- good status whose body is of no use.
abbrev pub Explains : Result Text Response → Thrown → Type 0
Explains (err cause) t = (m : Text) × (t ≡ orchestrator_error m 0)
Explains (ok res) t =
    ((m : Text) × (is_ok res ≡ false) × (t ≡ orchestrator_error m res.status))
    ⊎ ((e : Text) × (is_ok res ≡ true) × (t ≡ foreign e))

parsed-err {ℓ} :
    {A : Type ℓ} (r : Result Text A) (t : Thrown)
    → ◌≡◌ {A = Result Thrown A} (elim r [ ok a ↦ ok a | err e ↦ err (foreign e) ]) (err t)
    → (e : Text) × (t ≡ foreign e)
parsed-err (ok a) t h = cc
parsed-err (err e) t h = (e, ground arith)

json_of-err {ℓ} :
    {A : Type ℓ} (parse : Text → Result Text A) (body : Option Text) (t : Thrown)
    → json_of parse body ≡ err t
    → (e : Text) × (t ≡ foreign e)
unfolding json_of
json_of-err parse none t h = (codes "body unusable", ground arith)
json_of-err parse (some b) t h = parsed-err (parse b) t h

answer-err {ℓ} :
    {A : Type ℓ} (parse : Text → Result Text A) (method path : Text) (res : Response) (t : Thrown)
    → answer parse method path res ≡ err t
    → Explains (ok res) t
unfolding answer
answer-err parse method path res t h = elim (Bool-cases (is_ok res)) [
  | inl good ↦ let (e, same) = json_of-err parse res.body t (rw good at h) in inr (e, good, same)
  | inr bad ↦ inl (refusal method path res, bad, cc (rw bad at h))
]

module _ {W : Type 0} (platform : Platform W) (o : Orchestrator) where
  -- What `request` throws tells what came of the fetch: no response at all, a response with a status
  -- outside 200 to 299, whose status it carries, or a good response with an unusable body.
  pub request-Explains {ℓ} :
      {A : Type ℓ} (parse : Text → Result Text A) (method path : Text) (body : Option Text)
      (w v : W) (t : Thrown)
      → request platform o parse method path body w ≡ (err t, v)
      → Explains (platform.fetch (sent o method path body) w).0 t
  unfolding request
  request-Explains {A} parse method path body w v t h =
      go (platform.fetch (sent o method path body) w) refl
    where
      go :
          (r : Result Text Response × W)
          → platform.fetch (sent o method path body) w ≡ r
          → Explains (platform.fetch (sent o method path body) w).0 t
      go (err cause, u) k =
          rw k (codes "request to " ++ (path ++ codes " failed"), cc (simp (k, request) at h))
      go (ok res, u) k = rw k (answer-err parse method path res t (cc (simp (k, request) at h)))
