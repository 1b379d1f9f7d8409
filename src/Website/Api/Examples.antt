-- ===== src/Website/Api/Examples.antt =====
-- The site's API at a backend that answers everything: apps/website/src/app/api/sandbox.
use solva.Prelude.{ℕ, ◌+◌, ◌≡◌, refl, true, false, List, [], ◌∷◌, Option, none, some, length}
use solva.Prelude.Int.{pos}
use solva.Prelude.Text.{Text, codes}
use solva.Prelude.Effect.{ok}
use solva.Website.Institutions.{kestrel}
use solva.Website.Sandbox.{SignedBalance, ProofDto}
use solva.Website.Sandbox.Runners.{ReservesReply, RunReply, run_prove}
use solva.Website.Api.{Backend, Environment, Reply, replied, reserve_accounts}
use solva.Website.Api.Token.{post_connect, reserve_source_token}
use solva.Website.Api.Token.Agreement.{
  shown_token, token_or_none, post_connect-reserve_source_token,
}
use solva.Website.Api.Reserves.{get_reserves}
use solva.Website.Api.Reserves.Total.{IsTotalled, get_reserves-IsTotalled}
use solva.Prelude.Payload.{parsed}
use solva.Website.Api.Run.{post_run}
use solva.Website.Api.Run.Judged.{Answered, IsFresh, post_run-run_prove}

abbrev signed : SignedBalance
signed = record {
  source_id = codes "acct";
  balance = codes "70";
  currency = codes "USD";
  signature = codes "s";
}

abbrev proof : ProofDto
proof = record {
  id = some (codes "7");
  chain_proof_id = some 7;
  root_hash = none;
  reserves_total = some (codes "140");
  liabilities_total = some (codes "100");
}

-- The world counts the requests.
abbrev backend : Backend ℕ
backend = record {
  fetch = λ request w. (ok (record { status = 200; body = some [] }), w + 1);
  now = λ w. w;
  encode = λ t. t;
  code_form = λ t. t;
  tenant_body = λ t. t;
  code_of = λ t. some (some (codes "c"));
  token_of = λ t.
      some (record { access_token = some (codes "tok"); token_type = none; expires_in = some 60 });
  balance_of = λ t. some signed;
  account_of = λ t. some [];
  proof_of = λ t. some (some proof);
  contract_of = λ t. some none;
  inclusion_of = λ t. none;
  error_of = λ t. none;
  syntax_error = codes "SyntaxError";
  bigint_error = codes "SyntaxError";
  null_error = codes "TypeError";
}

abbrev env : Environment
env = record {
  orchestrator_url = codes "http://o";
  sandbox_url = codes "http://s";
  horizon_url = codes "http://h";
  api_token = [];
  client_id = codes "id";
  accounts = codes "a" ∷ codes "b" ∷ [];
}

accounts-split : reserve_accounts (some (codes " a, ,b ")) ≡ codes "a" ∷ codes "b" ∷ []
unfolding reserve_accounts solva.Prelude.Text.trim
accounts-split = refl

post_connect-reserve_source_token_example :
    shown_token (post_connect backend env {E = Text} 0)
    ≡ token_or_none (reserve_source_token backend env 0)
post_connect-reserve_source_token_example = post_connect-reserve_source_token backend env 0

abbrev tenant : Text
tenant = codes "11111111-1111-1111-1111-111111111111"

abbrev both_read : ReservesReply
both_read = record {
  error = none;
  total = some (codes "140");
  balances = some (signed ∷ signed ∷ []);
  onchain = false;
}

reserves-read :
    get_reserves backend env {E = Text} (some tenant) 0 ≡ (ok (replied 200 both_read), 4)
unfolding get_reserves solva.Website.Institutions.demo_institution solva.Prelude.Text.text_eq
    reserve_source_token solva.Website.Api.json solva.Prelude.BigInt.parse_bigint
    solva.Prelude.BigInt.print_bigint solva.Prelude.Int.◌+ℤ◌
reserves-read = refl

get_reserves-IsTotalled_example : IsTotalled backend env both_read 4
get_reserves-IsTotalled_example =
    get_reserves-IsTotalled backend env (some tenant) 0 4 (replied 200 both_read) reserves-read

abbrev published : RunReply
published = record {
  error = none;
  published = true;
  rejected = false;
  busy = false;
  proof = some proof;
}

run-published :
    post_run backend env (parsed (some tenant, some (codes "healthy"))) 0
    ≡ (ok (replied 200 published), 3)
unfolding post_run solva.Website.Institutions.demo_institution solva.Prelude.Text.text_eq
    solva.Website.Api.json
run-published = refl

post_run-run_prove_example :
    ((run_prove kestrel published).succeeded ≡ true
      → Answered backend env tenant
          (some (codes "healthy"))
          (IsFresh backend env tenant (some proof) 3))
    × ((run_prove kestrel published).retry ≡ true
        → Answered backend env tenant
            (some (codes "healthy"))
            (λ cycle v. (cycle.status ≡ 409) × (v ≡ 3)))
post_run-run_prove_example =
    post_run-run_prove backend env tenant (some (codes "healthy")) kestrel 0 3
      (replied 200 published) run-published
