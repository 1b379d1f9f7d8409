-- ===== src/Website/Api/Token.antt =====
-- The token of the reserve source: `reserveSourceToken` of apps/website/src/lib/sandbox-backend.ts
-- and the route app/api/sandbox/connect/route.ts.
pub mod Agreement
use solva.Prelude.{Bool, List, [], ◌∷◌, ◌++◌, Option, none, some, if◌then◌else◌}
use solva.Prelude.Text.{Text, codes, join}
use solva.Prelude.Effect.{Eff, ret, ◌>>=◌, catching}
use solva.Sdk.Orchestrator.{Request, Response, is_ok}
use solva.Website.Sandbox.Runners.{ConnectReply}
use solva.Website.Api.{Backend, Environment, TokenBody, Reply, replied, json, unreachable, get}

unfoldable pub authorize_request : (Text → Text) → Environment → Request
authorize_request encode env =
    get (join (env.sandbox_url ∷ codes "/oauth/authorize?client_id=" ∷ encode env.client_id ∷ []))
      []

-- A missing field goes into a form as `undefined`.
abbrev form_value : Option Text → Text
form_value none = codes "undefined"
form_value (some value) = value

unfoldable pub token_request : (Text → Text) → Environment → Option Text → Request
token_request code_form env code = record {
  method = codes "POST";
  url = env.sandbox_url ++ codes "/oauth/token";
  headers = (codes "content-type", codes "application/x-www-form-urlencoded") ∷ [];
  body = some (code_form (form_value code));
}

abbrev connect_error : Text → ConnectReply
connect_error error = record {
  error = some error;
  client_id = none;
  code = none;
  access_token = none;
  token_type = none;
  expires_in = none;
}

abbrev connect_reply : Environment → Option Text → TokenBody → ConnectReply
connect_reply env code token = record {
  error = none;
  client_id = some env.client_id;
  code = code;
  access_token = token.access_token;
  token_type = token.token_type;
  expires_in = token.expires_in;
}

module _ {W : Type 0} (backend : Backend W) (env : Environment) where
  read_token : Response → Eff W Text (Option Text)
  read_token res =
      if is_ok res
      then (do token ← json backend backend.token_of res; ret token.access_token)
      else ret none

  exchange_code : Response → Eff W Text (Option Text)
  unfolding token_request read_token
  exchange_code res =
      if is_ok res
      then (do
        code ← json backend backend.code_of res
        answer ← backend.fetch (token_request backend.code_form env code)
        read_token answer)
      else ret none

  unfoldable pub reserve_source_token : Eff W Text (Option Text)
  unfolding authorize_request exchange_code
  reserve_source_token = do
    res ← backend.fetch (authorize_request backend.encode env)
    exchange_code res

  connect_with_token : Option Text → Response → Eff W Text (Reply ConnectReply)
  connect_with_token code res =
      if is_ok res
      then (do
        token ← json backend backend.token_of res
        ret (replied 200 (connect_reply env code token)))
      else ret (replied 502 (connect_error (codes "token exchange failed")))

  connect_with_code : Response → Eff W Text (Reply ConnectReply)
  unfolding token_request connect_with_token
  connect_with_code res =
      if is_ok res
      then (do
        code ← json backend backend.code_of res
        answer ← backend.fetch (token_request backend.code_form env code)
        connect_with_token code answer)
      else ret (replied 502 (connect_error (codes "authorisation failed")))

  -- `POST` of connect/route.ts; nothing is thrown out of it.
  unfoldable pub post_connect : {E : Type 0} → Eff W E (Reply ConnectReply)
  unfolding authorize_request connect_with_code
  post_connect =
      catching
        (do res ← backend.fetch (authorize_request backend.encode env); connect_with_code res)
        (λ error. ret (replied 502 (connect_error (unreachable error))))
