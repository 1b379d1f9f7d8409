-- ===== src/Website/Api/Reads.antt =====
-- The routes that read: apps/website/src/app/api/sandbox/record, inclusion and status.
use solva.Prelude.{ℕ, Bool, true, false, [], ◌∷◌, ◌++◌, Option, none, some, ◌==◌, if◌then◌else◌}
use solva.Prelude.Text.{Text, codes, is_truthy, join}
use solva.Prelude.Effect.{Result, ok, err, Eff, ret, throw, ◌>>=◌, catching}
use solva.Sdk.{Thrown}
use solva.Sdk.Orchestrator.{Platform, Request, Response, is_ok}
use solva.Sdk.Registry.{Contract}
use solva.Website.Institutions.{DemoInstitution, demo_institution}
use solva.Website.OnchainRecord.{OnChainRecord, read_on_chain_record, check_inclusion_on_chain}
use solva.Website.Sandbox.{ProofDto, ContractDto}
use solva.Website.Sandbox.Runners.{RecordReply, InclusionReply}
use solva.Website.Api.{
  Backend, Environment, InclusionBody, Reply, replied, json, unreachable, get, orchestrator_headers,
}
use solva.Website.Api.Run.{latest_request}

-- What the SDK and the registry's bindings throw becomes its text, by `show`.
abbrev shown {ℓ} : {W : Type 0} {A : Type ℓ} → (Thrown → Text) → Eff W Thrown A → Eff W Text A
shown show call = catching call (λ cause w. (err (show cause), w))

abbrev inclusion_error : Text → InclusionReply
inclusion_error error = record {
  error = some error;
  included = false;
  balance = none;
  path_length = none;
  chain_proof_id = none;
  on_chain = false;
}

abbrev no_proof : Reply InclusionReply
no_proof = replied 404 (inclusion_error (codes "no proof to check against yet"))

abbrev bad_request : Reply InclusionReply
bad_request = replied 400 (inclusion_error (codes "a known tenant and id_hash are required"))

-- `reason` is read by nobody.
abbrev not_included : InclusionReply
not_included = record (inclusion_error []) { error = none }

abbrev length_or_zero : Option ℕ → ℕ
length_or_zero none = 0
length_or_zero (some n) = n

abbrev included_reply : Bool → InclusionBody → InclusionReply
included_reply on_chain found = record {
  error = none;
  included = true;
  balance = found.balance;
  path_length = some (length_or_zero found.path_length);
  chain_proof_id = found.proof_id;
  on_chain = on_chain;
}

abbrev ref_of : Text → Text → Text
ref_of id id_hash = join (id ∷ codes ":" ∷ id_hash ∷ [])

abbrev pub StatusBody : Type 0
StatusBody = Option ContractDto × Option ProofDto

abbrev pair_of : {A B : Type 0} → Result Text A → Result Text B → Result Text (A × B)
pair_of (ok a) (ok b) = ok (a, b)
pair_of (ok a) (err error) = err error
pair_of (err error) _ = err error

module _ {W : Type 0} (backend : Backend W) (env : Environment) (platform : Platform W)
    (contract : Contract W) (rpc_url : Text) (show : Thrown → Text) where
  record_of : OnChainRecord → RecordReply
  record_of found = record {
    rec = some (record { reserves = found.reserves; liabilities = found.liabilities });
    error = none;
  }

  record_error : Text → RecordReply
  record_error error = record { rec = none; error = some error }

  record_for : {E : Type 0} → Text → Option DemoInstitution → Eff W E (Reply RecordReply)
  unfolding record_of record_error
  record_for tenant none = ret (replied 400 (record_error (codes "unknown institution")))
  record_for tenant (some institution) =
      catching
        (do
          found ←
              shown show
                (read_on_chain_record platform contract env.orchestrator_url rpc_url tenant)
          ret (replied 200 (record_of found)))
        (λ error.
          ret (
            replied 502 (record_error (codes "could not read the record from Stellar: " ++ error))))

  unfoldable pub get_record : {E : Type 0} → Option Text → Eff W E (Reply RecordReply)
  unfolding record_for
  get_record none = record_for [] (demo_institution [])
  get_record (some tenant) = record_for tenant (demo_institution tenant)

  inclusion_request : Text → Request
  inclusion_request ref =
      get (join (env.orchestrator_url ∷ codes "/v1/proofs/inclusion/" ∷ backend.encode ref ∷ []))
        (orchestrator_headers env [])

  inclusion_answer : Text → Text → Response → Eff W Text (Reply InclusionReply)
  inclusion_answer tenant ref res =
      if res.status == 404
      then ret (replied 200 not_included)
      else (if is_ok res
          then (do
            found ← json backend backend.inclusion_of res
            on_chain ←
                shown show (
                  check_inclusion_on_chain platform contract env.orchestrator_url rpc_url tenant
                    ref)
            ret (replied 200 (included_reply on_chain found)))
          else ret (replied 502 (inclusion_error (codes "inclusion lookup failed"))))

  inclusion_with_id : Text → Text → Option Text → Eff W Text (Reply InclusionReply)
  unfolding inclusion_request inclusion_answer
  inclusion_with_id tenant id_hash none = ret no_proof
  inclusion_with_id tenant id_hash (some id) =
      if is_truthy id
      then (do
        res ← backend.fetch (inclusion_request (ref_of id id_hash))
        inclusion_answer tenant (ref_of id id_hash) res)
      else ret no_proof

  -- `null` has no `id` to read.
  inclusion_in : Text → Text → Option ProofDto → Eff W Text (Reply InclusionReply)
  unfolding inclusion_with_id
  inclusion_in tenant id_hash none = throw backend.null_error
  inclusion_in tenant id_hash (some proof) = inclusion_with_id tenant id_hash proof.id

  inclusion_from : Text → Text → Response → Eff W Text (Reply InclusionReply)
  unfolding inclusion_in
  inclusion_from tenant id_hash latest =
      if is_ok latest
      then (do proof ← json backend backend.proof_of latest; inclusion_in tenant id_hash proof)
      else ret no_proof

  inclusion_for :
      {E : Type 0} → Text → Text → Option DemoInstitution → Eff W E (Reply InclusionReply)
  unfolding inclusion_from
  inclusion_for tenant id_hash none = ret bad_request
  inclusion_for tenant id_hash (some institution) =
      if is_truthy id_hash
      then catching
          (do
            latest ← backend.fetch (latest_request backend env tenant)
            inclusion_from tenant id_hash latest)
          (λ error. ret (replied 502 (inclusion_error (unreachable error))))
      else ret bad_request

  -- `GET` of inclusion/route.ts.
  unfoldable pub get_inclusion :
      {E : Type 0} → Option Text → Option Text → Eff W E (Reply InclusionReply)
  unfolding inclusion_for
  get_inclusion (some tenant) (some id_hash) =
      inclusion_for tenant id_hash (demo_institution tenant)
  get_inclusion _ _ = ret bad_request

  fetch_json : {A : Type 0} → (Text → Option (Option A)) → Text → Eff W Text (Option A)
  fetch_json parse url = do
    res ← backend.fetch (get url (orchestrator_headers env []))
    if is_ok res then json backend parse res else ret none

  -- `Promise.all`: both are asked, and the error of the first that failed is thrown.
  both : {A B : Type 0} → Eff W Text A → Eff W Text B → Eff W Text (A × B)
  both first second w = let (a, u) = first w in let (b, v) = second u in (pair_of a b, v)

  contract_url : Text → Text
  contract_url tenant =
      join (
        env.orchestrator_url
        ∷ codes "/v1/tenants/"
        ∷ backend.encode tenant
        ∷ codes "/contract"
        ∷ [])

  status_for : {E : Type 0} → Text → Eff W E (Reply (Result Text StatusBody))
  unfolding both fetch_json contract_url latest_request
  status_for tenant =
      if is_truthy tenant
      then catching
          (do
            found ←
                both (fetch_json backend.contract_of (contract_url tenant))
                  (fetch_json backend.proof_of (latest_request backend env tenant).url)
            ret (replied 200 (ok found)))
          (λ error. ret (replied 502 (err (unreachable error))))
      else ret (replied 400 (err (codes "tenant is required")))

  -- `GET` of status/route.ts: the contract and the latest proof, each with none for `null`.
  unfoldable pub get_status : {E : Type 0} → Option Text → Eff W E (Reply (Result Text StatusBody))
  unfolding status_for
  get_status none = status_for []
  get_status (some tenant) = status_for tenant
