-- ===== src/Website/Api/Reserves.antt =====
-- The reserves of a demo institution: apps/website/src/app/api/sandbox/reserves/route.ts, and
-- `readHolding` of lib/horizon-reserves.ts.
pub mod Total
use solva.Prelude.{ℕ, Bool, true, false, List, [], ◌∷◌, ◌++◌, Option, none, some, if◌then◌else◌}
use solva.Prelude.Int.{ℤ, pos, ◌+ℤ◌}
use solva.Prelude.BigInt.{parse_bigint, print_bigint}
use solva.Prelude.Text.{Text, codes, is_truthy, print_nat, join}
use solva.Prelude.Effect.{Result, ok, err, Eff, ret, throw, ◌>>=◌, catching}
use solva.Sdk.Orchestrator.{Request, Response, is_ok}
use solva.Website.Institutions.{
  DemoInstitution, ReserveSource, attested, onchain, demo_institution, Holding, missing, unreadable,
  holds, holding_balance,
}
use solva.Website.Sandbox.{SignedBalance}
use solva.Website.Sandbox.Runners.{ReservesReply}
use solva.Website.Api.{
  Backend, Environment, Reply, replied, json, unreachable, get, reserve_balance_url,
}
use solva.Website.Api.Token.{reserve_source_token}

abbrev reserves_error : Text → ReservesReply
reserves_error error = record { error = some error; total = none; balances = none; onchain = false }

abbrev no_token : Reply ReservesReply
no_token = replied 502 (reserves_error (codes "could not obtain a reserve-source token"))

abbrev signed_reply : List SignedBalance → Text → ReservesReply
signed_reply balances total = record {
  error = none;
  total = some total;
  balances = some balances;
  onchain = false;
}

abbrev onchain_reply : Text → ReservesReply
onchain_reply total = record { error = none; total = some total; balances = none; onchain = true }

-- `BigInt(item.balance || "0")`; an empty text is 0 to `BigInt` too.
abbrev or_zero : Text → Text
or_zero [] = codes "0"
or_zero (c ∷ s) = c ∷ s

abbrev pub with_amount : Option ℤ → (ℤ → Option ℤ) → Option ℤ
with_amount none rest = none
with_amount (some amount) rest = rest amount

-- `reduce`, or none where `BigInt` throws.
unfoldable pub sum_from : ℤ → List SignedBalance → Option ℤ
sum_from sum [] = some sum
sum_from sum (item ∷ items) =
    with_amount (parse_bigint (or_zero item.balance)) (λ amount. sum_from (sum +ℤ amount) items)

abbrev with_first :
    SignedBalance
    → Result (Reply ReservesReply) (List SignedBalance)
    → Result (Reply ReservesReply) (List SignedBalance)
with_first balance (ok balances) = ok (balance ∷ balances)
with_first balance (err refusal) = err refusal

module _ {W : Type 0} (backend : Backend W) (env : Environment) where
  held : Text → Holding → Eff W Text Text
  held code missing = throw (codes "Error: the reserve account holds no " ++ code)
  held code unreadable = throw backend.bigint_error
  held code (holds balance) = ret balance

  holding_in : Text → Text → Response → Eff W Text Text
  unfolding held
  holding_in code issuer res =
      if is_ok res
      then (do
        lines ← json backend backend.account_of res
        held code (holding_balance lines code issuer))
      else throw (
          join (
            codes "Error: Horizon returned HTTP "
            ∷ print_nat res.status
            ∷ codes " for the reserve account"
            ∷ []))

  unfoldable pub read_holding : Text → Text → Text → Eff W Text Text
  unfolding holding_in
  read_holding account code issuer = do
    res ←
        backend.fetch
          (get (join (env.horizon_url ∷ codes "/accounts/" ∷ backend.encode account ∷ [])) [])
    holding_in code issuer res

  balance_request : Text → Text → Request
  balance_request token account =
      get (reserve_balance_url backend.encode env.sandbox_url account)
        ((codes "authorization", codes "Bearer " ++ token) ∷ [])

  abbrev unread : Text → ℕ → Text
  unread account status = join (
      codes "could not read the signed balance of "
      ∷ account
      ∷ codes " (HTTP "
      ∷ print_nat status
      ∷ codes ")"
      ∷ [])

  -- The loop over the accounts: the balances that were read, or the answer that ends it.
  unfoldable pub read_balances :
      Text → List Text → Eff W Text (Result (Reply ReservesReply) (List SignedBalance))
  unfolding balance_request
  read_balances token [] = ret (ok [])
  read_balances token (account ∷ accounts) =
      let further = read_balances token accounts in
      (do
        res ← backend.fetch (balance_request token account)
        if is_ok res
            then (do
              balance ← json backend backend.balance_of res
              rest ← further
              ret (with_first balance rest))
            else ret (err (replied 502 (reserves_error (unread account res.status)))))

  totalled : List SignedBalance → Option ℤ → Eff W Text (Reply ReservesReply)
  totalled balances none = throw backend.bigint_error
  totalled balances (some sum) = ret (replied 200 (signed_reply balances (print_bigint sum)))

  add_up : Result (Reply ReservesReply) (List SignedBalance) → Eff W Text (Reply ReservesReply)
  unfolding totalled sum_from
  add_up (err refusal) = ret refusal
  add_up (ok balances) = totalled balances (sum_from (pos 0) balances)

  with_token : Option Text → Eff W Text (Reply ReservesReply)
  unfolding read_balances add_up
  with_token none = ret no_token
  with_token (some token) =
      if is_truthy token
      then (do read ← read_balances token env.accounts; add_up read)
      else ret no_token

  -- The two ways to read the reserves; nothing is thrown out of them.
  reserves_of : {E : Type 0} → ReserveSource → Eff W E (Reply ReservesReply)
  unfolding with_token
  reserves_of (onchain account code issuer) =
      catching
        (do balance ← read_holding account code issuer; ret (replied 200 (onchain_reply balance)))
        (λ error.
          ret
            (replied 502 (reserves_error (codes "could not read the reserve account: " ++ error))))
  reserves_of attested =
      catching (do token ← reserve_source_token backend env; with_token token)
        (λ error. ret (replied 502 (reserves_error (unreachable error))))

  reserves_for : {E : Type 0} → Option DemoInstitution → Eff W E (Reply ReservesReply)
  unfolding reserves_of
  reserves_for none = ret (replied 400 (reserves_error (codes "unknown institution")))
  reserves_for (some institution) = reserves_of institution.reserves

  -- `GET`, for the parameter `tenant`.
  unfoldable pub get_reserves : {E : Type 0} → Option Text → Eff W E (Reply ReservesReply)
  unfolding reserves_for
  get_reserves none = reserves_for (demo_institution [])
  get_reserves (some tenant) = reserves_for (demo_institution tenant)
