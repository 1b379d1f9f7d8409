-- ===== src/Console/Provisioning.antt =====
-- The provisioning of a tenant: apps/web/src/app/api/provision/route.ts and lib/control-plane.ts.
-- The network, the encoders and the parser of the created tenant are parameters; an error is the
-- text that `String` shows of it.
use solva.Prelude.{ℕ, List, [], ◌∷◌, ◌++◌, Option, none, some, if◌then◌else◌}
use solva.Prelude.Text.{Text, codes, is_truthy, print_nat, join}
use solva.Prelude.Payload.{Payload, unreadable, null_body, parsed}
use solva.Prelude.Effect.{Result, Eff, ret, throw, ◌>>=◌, ◌>>◌, catching}
use solva.Sdk.Orchestrator.{Request, Response, is_ok}

pub record CreatedTenant : Type 0 where
  pub id : Text
  pub name : Text
  pub plan : Text

pub record ControlPlane (W : Type 0) : Type 0 where
  pub url : Text
  pub token : Option Text
  pub fetch : Request → Eff W Text Response
  pub encode : Text → Text
  -- `JSON.stringify` of an object of texts, by its keys and values.
  pub stringify : List (Text × Text) → Text
  pub tenant_of : Option Text → Result Text CreatedTenant

unfoldable pub headers : Option Text → List (Text × Text)
headers none = (codes "content-type", codes "application/json") ∷ []
headers (some token) =
    (codes "content-type", codes "application/json")
    ∷ (if is_truthy token then (codes "Authorization", codes "Bearer " ++ token) ∷ [] else [])

abbrev http_error : Text → ℕ → Text
http_error what status = join (codes "Error: " ∷ what ∷ codes ": HTTP " ∷ print_nat status ∷ [])

module _ {W : Type 0} (control : ControlPlane W) where
  json_request : Text → Text → List (Text × Text) → Request
  json_request method path fields = record {
    method = method;
    url = control.url ++ path;
    headers = headers control.token;
    body = some (control.stringify fields);
  }

  created : Response → Eff W Text CreatedTenant
  created res =
      if is_ok res
      then (λ w. (control.tenant_of res.body, w))
      else throw (http_error (codes "create tenant") res.status)

  unfoldable pub create_tenant : Text → Text → Eff W Text CreatedTenant
  unfolding created json_request headers
  create_tenant name plan = do
    res ← control.fetch (
        json_request (codes "POST") (codes "/v1/tenants")
          ((codes "name", name) ∷ (codes "plan", plan) ∷ []))
    created res

  recorded : Text → Response → Eff W Text (Unit {0})
  recorded what res = if is_ok res then ret tt else throw (http_error what res.status)

  tenant_path : Text → Text → Text
  tenant_path tenant part =
      join (codes "/v1/tenants/" ∷ control.encode tenant ∷ codes "/" ∷ part ∷ [])

  unfoldable pub set_tenant_wallet : Text → Text → Eff W Text (Unit {0})
  unfolding recorded tenant_path json_request headers
  set_tenant_wallet tenant wallet = do
    res ← control.fetch (
        json_request (codes "PUT") (tenant_path tenant (codes "wallet"))
          ((codes "wallet_address", wallet) ∷ []))
    recorded (codes "set tenant wallet") res

  unfoldable pub set_tenant_contract : Text → Text → Text → Eff W Text (Unit {0})
  unfolding recorded tenant_path json_request headers
  set_tenant_contract tenant contract_id network = do
    res ← control.fetch (
        json_request (codes "PUT") (tenant_path tenant (codes "contract"))
          ((codes "contract_id", contract_id) ∷ (codes "network", network) ∷ []))
    recorded (codes "set tenant contract") res

-- The answers: a tenant with the command that deploys its registry, that it is recorded, or an
-- error with its status.
pub data Provisioned : Type 0 where
  tenant_created : (tenant_id deploy_command : Text) → Provisioned
  registry_recorded : Provisioned
  refused : ℕ → Text → Provisioned

-- The fields of a body, a missing one as none.
pub record PostBody : Type 0 where
  pub name : Option Text
  pub plan : Option Text
  pub wallet : Option Text

pub record PutBody : Type 0 where
  pub tenant_id : Option Text
  pub contract_id : Option Text
  pub network : Option Text

abbrev or_empty : Option Text → Text
or_empty none = []
or_empty (some text) = text

abbrev or_else_text : Option Text → Text → Text
or_else_text none otherwise = otherwise
or_else_text (some text) otherwise = text

abbrev deploy_command : Text → Text → Text
deploy_command tenant wallet =
    join
      (codes "just provision-tenant " ∷ tenant ∷ codes " " ∷ wallet ∷ codes " testnet signor" ∷ [])

module _ {W : Type 0} (control : ControlPlane W) where
  provision : Text → Text → Text → Eff W Text Provisioned
  unfolding create_tenant set_tenant_wallet
  provision name plan wallet = do
    tenant ← create_tenant control name plan
    set_tenant_wallet control tenant.id wallet
    ret (tenant_created tenant.id (deploy_command tenant.id wallet))

  post_fields : {E : Type 0} → Text → Text → Text → Eff W E Provisioned
  unfolding provision
  post_fields [] plan wallet = ret (refused 400 (codes "name and wallet are required"))
  post_fields (c ∷ name) plan [] = ret (refused 400 (codes "name and wallet are required"))
  post_fields (c ∷ name) plan (d ∷ wallet) =
      catching (provision (c ∷ name) plan (d ∷ wallet))
        (λ error. ret (refused 502 (codes "provisioning failed: " ++ error)))

  -- `POST`; the fields of `null` are read outside the `try`, which throws `null_error`.
  unfoldable pub post_provision : Text → Payload PostBody → Eff W Text Provisioned
  unfolding post_fields
  post_provision null_error unreadable = ret (refused 400 (codes "invalid request body"))
  post_provision null_error null_body = throw null_error
  post_provision null_error (parsed body) =
      post_fields (or_empty body.name) (or_else_text body.plan (codes "free"))
        (or_empty body.wallet)

  record_registry : Text → Text → Text → Eff W Text Provisioned
  unfolding set_tenant_contract
  record_registry tenant contract_id network = do
    set_tenant_contract control tenant contract_id network
    ret registry_recorded

  put_fields : {E : Type 0} → Text → Text → Text → Eff W E Provisioned
  unfolding record_registry
  put_fields [] contract_id network =
      ret (refused 400 (codes "tenantId and contractId are required"))
  put_fields (c ∷ tenant) [] network =
      ret (refused 400 (codes "tenantId and contractId are required"))
  put_fields (c ∷ tenant) (d ∷ contract_id) network =
      catching (record_registry (c ∷ tenant) (d ∷ contract_id) network)
        (λ error. ret (refused 502 (codes "recording registry failed: " ++ error)))

  unfoldable pub put_provision : Text → Payload PutBody → Eff W Text Provisioned
  unfolding put_fields
  put_provision null_error unreadable = ret (refused 400 (codes "invalid request body"))
  put_provision null_error null_body = throw null_error
  put_provision null_error (parsed body) =
      put_fields (or_empty body.tenant_id) (or_empty body.contract_id)
        (or_else_text body.network (codes "testnet"))
