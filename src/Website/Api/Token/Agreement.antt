-- ===== src/Website/Api/Token/Agreement.antt =====
-- Both ways to a token of the reserve source are one: apps/website/src/lib/sandbox-backend.ts and
-- app/api/sandbox/connect/route.ts.
use solva.Prelude.{◌≡◌, refl, Option, none, inl, inr, Bool-cases}
use solva.Prelude.Text.{Text}
use solva.Prelude.Effect.{Result, ok, err, and_then, or_else}
use solva.Sdk.Orchestrator.{Response, is_ok}
use solva.Website.Sandbox.Runners.{ConnectReply}
use solva.Website.Api.{Backend, Environment, TokenBody, Reply, replied, json, unreachable}
use solva.Website.Api.Token.{
  authorize_request, token_request, connect_error, connect_reply, read_token, exchange_code,
  reserve_source_token, connect_with_token, connect_with_code, post_connect,
}

-- The token that an answer of the route shows.
pub shown_token : {W E : Type 0} → Result E (Reply ConnectReply) × W → Option Text × W
shown_token (ok reply, w) = (reply.body.access_token, w)
shown_token (err error, w) = (none, w)

pub token_or_none : {W : Type 0} → Result Text (Option Text) × W → Option Text × W
token_or_none (ok token, w) = (token, w)
token_or_none (err error, w) = (none, w)

module _ {W : Type 0} (backend : Backend W) (env : Environment) where
  settled : Result Text (Reply ConnectReply) × W → Result Text (Reply ConnectReply) × W
  settled x = or_else x (λ error w. (ok (replied 502 (connect_error (unreachable error))), w))

  token_reply :
      (code : Option Text) (answer : Result Text TokenBody × W)
      → shown_token (
          settled
            (and_then answer (λ token w. (ok (replied 200 (connect_reply env code token)), w))))
        ≡ token_or_none (and_then answer (λ token w. (ok token.access_token, w)))
  unfolding settled shown_token token_or_none
  token_reply code (ok token, w) = refl
  token_reply code (err error, w) = refl

  connect_with_token-read_token :
      (code : Option Text) (answer : Result Text Response × W)
      → shown_token (settled (and_then answer (connect_with_token backend env code)))
        ≡ token_or_none (and_then answer (read_token backend env))
  unfolding settled shown_token token_or_none connect_with_token read_token
  connect_with_token-read_token code (err error, w) = refl
  connect_with_token-read_token code (ok res, w) = elim (Bool-cases (is_ok res)) [
    | inl fine ↦ rw fine (token_reply code (json backend backend.token_of res w))
    | inr bad ↦ rw bad refl
  ]

  exchange_reply :
      (code : Result Text (Option Text) × W)
      → shown_token (
          settled (
            and_then code (λ c. λ u.
              and_then
                (backend.fetch (token_request backend.code_form env c) u)
                (connect_with_token backend env c))))
        ≡ token_or_none (
            and_then code (λ c. λ u.
              and_then
                (backend.fetch (token_request backend.code_form env c) u)
                (read_token backend env)))
  unfolding settled shown_token token_or_none
  exchange_reply (err error, w) = refl
  exchange_reply (ok code, w) =
      connect_with_token-read_token code
        (backend.fetch (token_request backend.code_form env code) w)

  connect_with_code-exchange_code :
      (answer : Result Text Response × W)
      → shown_token (settled (and_then answer (connect_with_code backend env)))
        ≡ token_or_none (and_then answer (exchange_code backend env))
  unfolding settled shown_token token_or_none connect_with_code exchange_code
  connect_with_code-exchange_code (err error, w) = refl
  connect_with_code-exchange_code (ok res, w) = elim (Bool-cases (is_ok res)) [
    | inl fine ↦ rw fine (exchange_reply (json backend backend.code_of res w))
    | inr bad ↦ rw bad refl
  ]

  -- The connection that the demo shows hands out the very token that the reading of the reserves
  -- uses, and makes the same requests for it: the token is missing from the one answer exactly
  -- where the other finds none or fails.
  pub post_connect-reserve_source_token :
      (w : W)
      → shown_token (post_connect backend env {E = Text} w)
        ≡ token_or_none (reserve_source_token backend env w)
  unfolding post_connect reserve_source_token settled
  post_connect-reserve_source_token w =
      connect_with_code-exchange_code (backend.fetch (authorize_request backend.encode env) w)
