-- ===== src/Sdk/Orchestrator.antt =====
-- packages/sdk-ts/src/orchestrator-client.ts. `fetch` sends a request and gives a response, or
-- fails before there is one. A response's body is text or, where it cannot be read, nothing; the
-- parsers of JSON bodies and `encodeURIComponent` come with the platform and are parameters too.
pub mod Errors
use solva.Prelude.{
  ℕ, ◌+◌, ◌≡◌, refl, Bool, true, false, List, [], ◌∷◌, ◌++◌, map, Option, none, some, leb, ltb,
  ◌&&◌, if◌then◌else◌,
}
use solva.Prelude.Text.{Text, codes, print_nat, is_truthy}
use solva.Prelude.Effect.{Result, ok, err, Eff, ret, throw, ◌>>=◌, catching}
use solva.SharedTypes.{Proof, InclusionRef, PathNode, left, right}
use solva.Sdk.{Thrown, orchestrator_error, foreign}

pub record Request : Type 0 where
  pub method : Text
  pub url : Text
  pub headers : List (Text × Text)
  pub body : Option Text

pub record Response : Type 0 where
  pub status : ℕ
  pub body : Option Text

-- `res.ok`.
abbrev pub is_ok : Response → Bool
is_ok res = leb 200 res.status && ltb res.status 300

pub record PathNodeDto : Type 0 where
  pub hash : Text
  pub sum : Text
  pub sibling_is_left : Bool

pub record InclusionRefDto : Type 0 where
  pub proof_id : Text
  pub customer_id_hash : Text
  pub balance : Text
  pub root_hash : Text
  pub path : List PathNodeDto

pub record ContractDto : Type 0 where
  pub contract_id : Text
  pub network : Text

pub record IdDto : Type 0 where
  pub id : Text

-- The platform: the network, the parsers of the bodies, and the encoder of a path's part. A parser
-- gives the value or the error that `res.json()` throws.
pub record Platform (W : Type 0) : Type 0 where
  pub fetch : Request → Eff W Text Response
  pub proof_of : Text → Result Text Proof
  pub inclusion_of : Text → Result Text InclusionRefDto
  pub contract_of : Text → Result Text ContractDto
  pub id_of : Text → Result Text IdDto
  pub encode : Text → Text

pub record Orchestrator : Type 0 where
  pub base_url : Text
  pub tenant : Text
  pub api_key : Option Text

-- `if (this.apiKey)`: an empty key sends no header.
abbrev authorization : Option Text → List (Text × Text)
authorization none = []
authorization (some key) =
    if is_truthy key then (codes "authorization", codes "Bearer " ++ key) ∷ [] else []

unfoldable pub headers_of : Orchestrator → List (Text × Text)
headers_of o =
    (codes "content-type", codes "application/json")
    ∷ (codes "x-solva-tenant", o.tenant)
    ∷ authorization o.api_key

-- `res.text().catch(() => "")`.
abbrev pub detail_of : Option Text → Text
detail_of none = []
detail_of (some t) = t

json_of {ℓ} : {A : Type ℓ} → (Text → Result Text A) → Option Text → Result Thrown A
json_of parse none = err (foreign (codes "body unusable"))
json_of parse (some t) = elim (parse t) [ ok a ↦ ok a | err e ↦ err (foreign e) ]

abbrev refusal : Text → Text → Response → Text
refusal method path res =
    method
    ++ (codes " "
        ++ (path
            ++ (codes " returned "
                ++ (print_nat res.status ++ (codes ": " ++ detail_of res.body)))))

answer {ℓ} : {A : Type ℓ} → (Text → Result Text A) → Text → Text → Response → Result Thrown A
unfolding json_of
answer parse method path res =
    if is_ok res
    then json_of parse res.body
    else err (orchestrator_error (refusal method path res) res.status)

module _ {W : Type 0} (platform : Platform W) (o : Orchestrator) where
  unfoldable pub request {ℓ} :
      {A : Type ℓ} → (Text → Result Text A) → Text → Text → Option Text → Eff W Thrown A
  unfolding answer headers_of
  request parse method path body = do
    res ←
        catching
          (platform.fetch (record {
            method = method;
            url = o.base_url ++ path;
            headers = headers_of o;
            body = body;
          }))
          (λ cause. throw (orchestrator_error (codes "request to " ++ (path ++ codes " failed")) 0))
    λ w. (answer parse method path res, w)

  unfoldable pub connect_source : Text → Eff W Thrown Text
  unfolding request
  connect_source config = do
    body ← request platform.id_of (codes "POST") (codes "/v1/sources") (some config)
    ret body.id

  unfoldable pub run_proof_cycle : Eff W Thrown Text
  unfolding request
  run_proof_cycle = do
    body ← request platform.id_of (codes "POST") (codes "/v1/cycles") (some (codes "{}"))
    ret body.id

  unfoldable pub get_latest_proof : Eff W Thrown Proof
  unfolding request
  get_latest_proof = request platform.proof_of (codes "GET") (codes "/v1/proofs/latest") none

  unfoldable pub get_proof : Text → Eff W Thrown Proof
  unfolding request
  get_proof id =
      request platform.proof_of (codes "GET") (codes "/v1/proofs/" ++ platform.encode id) none

  unfoldable pub get_tenant_contract : Eff W Thrown ContractDto
  unfolding request
  get_tenant_contract =
      request platform.contract_of (codes "GET")
        (codes "/v1/tenants/" ++ (platform.encode o.tenant ++ codes "/contract")) none

unfoldable pub path_node_of : PathNodeDto → PathNode
path_node_of node = record {
  hash = node.hash;
  sum = node.sum;
  position = if node.sibling_is_left then left else right;
}

unfoldable pub inclusion_ref_of : InclusionRefDto → InclusionRef
unfolding path_node_of
inclusion_ref_of dto = record {
  proof_id = dto.proof_id;
  customer_id_hash = dto.customer_id_hash;
  balance = dto.balance;
  path = map path_node_of dto.path;
}

module _ {W : Type 0} (platform : Platform W) (o : Orchestrator) where
  unfoldable pub get_inclusion_ref : Text → Eff W Thrown InclusionRef
  unfolding request inclusion_ref_of
  get_inclusion_ref ref = do
    dto ←
        request platform o platform.inclusion_of (codes "GET")
          (codes "/v1/proofs/inclusion/" ++ platform.encode ref) none
    ret (inclusion_ref_of dto)
