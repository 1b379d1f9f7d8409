-- ===== src/Website/Api.antt =====
-- The site's own API, which the demo asks: apps/website/src/app/api/sandbox, with lib/sandbox-
-- backend.ts, sandbox-paths.ts and horizon-reserves.ts. The network, the clock, the encoders and
-- the parser of bodies are parameters; an error is told by what `String` shows of it.
pub mod Token
pub mod Reserves
pub mod Run
pub mod Reads
mod Examples
use solva.Prelude.{
  ℕ, Bool, true, false, List, [], ◌∷◌, ◌++◌, Option, none, some, ◌==◌, if◌then◌else◌,
}
use mathlib.Core.List.{reverse}
use solva.Prelude.Text.{Text, codes, is_truthy, trim, print_nat, join}
use solva.Prelude.Effect.{Eff, ret, throw, ◌>>=◌}
use solva.Sdk.Orchestrator.{Request, Response, is_ok}
use solva.Website.Sandbox.{ProofDto, ContractDto, SignedBalance}
use solva.Website.Institutions.{BalanceLine}

pub record TokenBody : Type 0 where
  pub access_token : Option Text
  pub token_type : Option Text
  pub expires_in : Option ℕ

pub record InclusionBody : Type 0 where
  pub proof_id : Option Text
  pub customer_id_hash : Option Text
  pub balance : Option Text
  pub root_hash : Option Text
  -- The length of `path`, where it is an array.
  pub path_length : Option ℕ

-- What the routes use of the platform. A parser gives none where the text is no JSON, or the
-- reading of the value throws.
pub record Backend (W : Type 0) : Type 0 where
  pub fetch : Request → Eff W Text Response
  pub now : W → ℕ
  -- `encodeURIComponent`, and `new URLSearchParams({ code }).toString()`.
  pub encode : Text → Text
  pub code_form : Text → Text
  -- `JSON.stringify({ tenant_id })`.
  pub tenant_body : Text → Text
  pub code_of : Text → Option (Option Text)
  pub token_of : Text → Option TokenBody
  pub balance_of : Text → Option SignedBalance
  pub account_of : Text → Option (List BalanceLine)
  pub proof_of : Text → Option (Option ProofDto)
  pub contract_of : Text → Option (Option ContractDto)
  pub inclusion_of : Text → Option InclusionBody
  pub error_of : Text → Option (Option Text)
  -- `String` of the error that `json` throws, and of the one that `BigInt` throws.
  pub syntax_error : Text
  pub bigint_error : Text
  -- `String` of the error of reading a field of `null`.
  pub null_error : Text

-- The variables of the environment, or what stands for one that is missing.
pub record Environment : Type 0 where
  pub orchestrator_url : Text
  pub sandbox_url : Text
  pub horizon_url : Text
  pub api_token : Text
  pub client_id : Text
  pub accounts : List Text

-- `NextResponse.json(body, { status })`.
pub record Reply (A : Type 0) : Type 0 where
  pub status : ℕ
  pub body : A

abbrev pub replied : {A : Type 0} → ℕ → A → Reply A
replied code answer = record { status = code; body = answer }

-- `res.json()`, by the parser of the shape that is read.
unfoldable pub json : {W A : Type 0} → Backend W → (Text → Option A) → Response → Eff W Text A
json backend parse res = elim (res.body) [
  | none ↦ throw backend.syntax_error
  | some text ↦ elim (parse text) [ none ↦ throw backend.syntax_error | some found ↦ ret found ]
]

-- `RESERVE_ACCOUNTS`: split at the commas, trimmed, without the empty ones.
unfoldable pub split_accounts : Text → Text → List Text
split_accounts before [] = trim (reverse before) ∷ []
split_accounts before (c ∷ s) =
    let further = split_accounts [] s in
    let same = split_accounts (c ∷ before) s in
    if c == b',' then trim (reverse before) ∷ further else same

unfoldable pub drop_empty : List Text → List Text
drop_empty [] = []
drop_empty ([] ∷ texts) = drop_empty texts
drop_empty ((c ∷ s) ∷ texts) = (c ∷ s) ∷ drop_empty texts

unfoldable pub reserve_accounts : Option Text → List Text
unfolding split_accounts drop_empty
reserve_accounts none = codes "acct-anchor" ∷ codes "acct-beacon" ∷ codes "acct-cedar" ∷ []
reserve_accounts (some setting) = drop_empty (split_accounts [] setting)

unfoldable pub orchestrator_headers : Environment → List (Text × Text) → List (Text × Text)
orchestrator_headers env extra =
    if is_truthy env.api_token
    then extra ++ (codes "authorization", codes "Bearer " ++ env.api_token) ∷ []
    else extra

abbrev pub unreachable : Text → Text
unreachable error = codes "backend unreachable: " ++ error

-- `base.replace(/\/+$/, "")`.
unfoldable pub drop_slashes : Text → Text
drop_slashes [] = []
drop_slashes (c ∷ s) = if c == b'/' then drop_slashes s else c ∷ s

unfoldable pub reserve_balance_url : (Text → Text) → Text → Text → Text
unfolding drop_slashes
reserve_balance_url encode base account = join (
    reverse (drop_slashes (reverse base))
    ∷ codes "/v1/accounts/"
    ∷ encode account
    ∷ codes "/balance"
    ∷ [])

abbrev pub get : Text → List (Text × Text) → Request
get url headers = record { method = codes "GET"; url = url; headers = headers; body = none }
