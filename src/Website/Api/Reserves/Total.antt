-- ===== src/Website/Api/Reserves/Total.antt =====
-- The total that the demo shows of the signed balances:
-- apps/website/src/app/api/sandbox/reserves/route.ts.
use solva.Prelude.{
  true, ◌≡◌, refl, ap, sym, ◌∙◌, List, [], ◌∷◌, ◌++◌, Option, none, some, if◌then◌else◌, inl, inr,
  Bool-cases, Option-cases, arith,
}
use solva.Prelude.Int.{ℤ, pos, ◌+ℤ◌, +ℤ_assoc}
use mathlib.Core.Path.{subst}
use mathlib.Core.List.{reverse}
use solva.Prelude.BigInt.{parse_bigint, print_bigint}
use solva.Prelude.Text.{Text, codes, is_truthy, join}
use solva.Prelude.Effect.{Result, ok, err, Eff, and_then, or_else}
use solva.Sdk.Orchestrator.{Response, is_ok}
use solva.Website.Institutions.{DemoInstitution, ReserveSource, attested, onchain, demo_institution}
use solva.Website.Sandbox.{SignedBalance}
use solva.Website.Sandbox.Runners.{ReservesReply}
use solva.Website.Api.{
  Backend, Environment, Reply, replied, json, unreachable, drop_slashes, reserve_balance_url,
}
use solva.Website.Api.Token.{reserve_source_token}
use solva.Website.Api.Reserves.{
  reserves_error, onchain_reply, with_first, or_zero, sum_from, unread, balance_request,
  read_balances, totalled, add_up, with_token, read_holding, reserves_of, reserves_for,
  get_reserves,
}

pub sum : List ℤ → ℤ
sum [] = pos 0
sum (amount ∷ amounts) = amount +ℤ sum amounts

-- The amounts that the balances state, an empty one being 0.
pub Amounts : List SignedBalance → List ℤ → Type 0
Amounts [] [] = Unit
Amounts (item ∷ items) (amount ∷ amounts) =
    (parse_bigint (or_zero item.balance) ≡ some amount) × Amounts items amounts
Amounts _ _ = ⊥

+ℤ_zero : (a : ℤ) → a +ℤ pos 0 ≡ a
unfolding ◌+ℤ◌
+ℤ_zero a = ground arith

zero_+ℤ : (a : ℤ) → pos 0 +ℤ a ≡ a
unfolding ◌+ℤ◌
zero_+ℤ a = ground arith

some_injective : {A : Type 0} {a b : A} → some a ≡ some b → a ≡ b
some_injective h = cc

started : (start total : ℤ) → some start ≡ some total → start ≡ total
started start total h = cc

sum_from-Amounts :
    (start total : ℤ) (balances : List SignedBalance)
    → sum_from start balances ≡ some total
    → (amounts : List ℤ) × Amounts balances amounts × (start +ℤ sum amounts ≡ total)
unfolding sum_from Amounts sum
sum_from-Amounts start total [] h = ([], tt, +ℤ_zero start ∙ started start total h)
sum_from-Amounts start total (item ∷ items) h =
    elim (Option-cases (parse_bigint (or_zero item.balance))) [
      | inl bad ↦ let stuck = simp bad at h in cc
      | inr (amount, states) ↦
          let (amounts, stated, adds) =
            sum_from-Amounts (start +ℤ amount) total items (simp states at h) in
          (amount ∷ amounts, (states, stated), sym (+ℤ_assoc start amount (sum amounts)) ∙ adds)
    ]

module _ {W : Type 0} (backend : Backend W) (env : Environment) where
  -- Each of the accounts in its order, with a balance each: the sandbox was asked for the balance of
  -- that account, under the token, and its good answer is the balance.
  pub Fetched : Text → List Text → List SignedBalance → W → W → Type 0
  Fetched token [] [] w end = w ≡ end
  Fetched token (account ∷ accounts) (balance ∷ balances) w end =
      (res : Response) × (u v : W) × (backend.fetch
          (record {
            method = codes "GET";
            url = join (
                reverse (drop_slashes (reverse env.sandbox_url))
                ∷ codes "/v1/accounts/"
                ∷ backend.encode account
                ∷ codes "/balance"
                ∷ []);
            headers = (codes "authorization", codes "Bearer " ++ token) ∷ [];
            body = none;
          })
          w
        ≡ (ok res, u))
      × (is_ok res ≡ true)
      × (json backend backend.balance_of res u ≡ (ok balance, v))
      × Fetched token accounts balances v end
  Fetched token _ _ w end = ⊥

  -- What a reply says of its balances.
  pub IsTotalled : ReservesReply → W → Type 0
  IsTotalled reply end =
      (balances : List SignedBalance)
      → reply.balances ≡ some balances
      → ((token : Text) × (start : W) × Fetched token env.accounts balances start end)
        × ((amounts : List ℤ) × Amounts balances amounts
            × (reply.total ≡ some (print_bigint (sum amounts))))

  Totalled : {E : Type 0} → Result E (Reply ReservesReply) × W → Type 0
  Totalled (ok reply, w) = IsTotalled reply.body w
  Totalled (err error, w) = Unit

  Read :
      Text
      → List Text
      → W
      → Result Text (Result (Reply ReservesReply) (List SignedBalance)) × W
      → Type 0
  Read token accounts start (ok (ok balances), w) = Fetched token accounts balances start w
  Read token accounts start (ok (err reply), w) = reply.body.balances ≡ none
  Read token accounts start (err error, w) = Unit

  with_first-Read :
      (token account : Text) (accounts : List Text) (start u v : W) (res : Response)
      (balance : SignedBalance)
      (rest : Result Text (Result (Reply ReservesReply) (List SignedBalance)) × W)
      → backend.fetch (balance_request backend env token account) start ≡ (ok res, u)
      → is_ok res ≡ true
      → json backend backend.balance_of res u ≡ (ok balance, v)
      → Read token accounts v rest
      → Read token
          (account ∷ accounts)
          start
          (and_then rest (λ x w. (ok (with_first balance x), w)))
  unfolding Read Fetched balance_request reserve_balance_url
  with_first-Read token account accounts start u v res balance (ok (ok balances), w) asked fine read
        h =
      (res, u, v, asked, fine, read, h)
  with_first-Read token account accounts start u v res balance (ok (err reply), w) asked fine read
        h =
      h
  with_first-Read token account accounts start u v res balance (err error, w) asked fine read h = tt

  item-Read :
      (token account : Text) (accounts : List Text) (start u : W) (res : Response)
      (rest : Eff W Text (Result (Reply ReservesReply) (List SignedBalance)))
      (item : Result Text SignedBalance × W)
      → backend.fetch (balance_request backend env token account) start ≡ (ok res, u)
      → is_ok res ≡ true
      → json backend backend.balance_of res u ≡ item
      → ((v : W) → Read token accounts v (rest v))
      → Read token
          (account ∷ accounts)
          start
          (and_then item (λ balance v. and_then (rest v) (λ x w. (ok (with_first balance x), w))))
  unfolding Read
  item-Read token account accounts start u res rest (ok balance, v) asked fine read h =
      with_first-Read token account accounts start u v res balance (rest v) asked fine read (h v)
  item-Read token account accounts start u res rest (err error, v) asked fine read h = tt

  response-Read :
      (token account : Text) (accounts : List Text) (start : W)
      (rest : Eff W Text (Result (Reply ReservesReply) (List SignedBalance)))
      (answer : Result Text Response × W)
      → backend.fetch (balance_request backend env token account) start ≡ answer
      → ((v : W) → Read token accounts v (rest v))
      → Read token (account ∷ accounts) start (
          and_then answer (λ res.
            if is_ok res
            then (λ u.
                and_then
                  (json backend backend.balance_of res u)
                  (λ balance v. and_then (rest v) (λ x w. (ok (with_first balance x), w))))
            else (λ u. (
              ok (err (replied 502 (reserves_error (unread backend env account res.status)))),
              u,
            ))))
  unfolding Read
  response-Read token account accounts start rest (err error, u) asked h = tt
  response-Read token account accounts start rest (ok res, u) asked h =
      elim (Bool-cases (is_ok res)) [
        | inl fine ↦ rw fine (
            item-Read token account accounts start u res rest
              (json backend backend.balance_of res u) asked fine refl h)
        | inr bad ↦ rw bad refl
      ]

  read_balances-Read :
      (token : Text) (accounts : List Text) (w : W)
      → Read token accounts w (read_balances backend env token accounts w)
  unfolding Read Fetched read_balances
  read_balances-Read token [] w = refl
  read_balances-Read token (account ∷ accounts) w =
      response-Read token account accounts w (read_balances backend env token accounts)
        (backend.fetch (balance_request backend env token account) w) refl
        (λ u. read_balances-Read token accounts u)

  totalled-Totalled :
      (token : Text) (start : W) (balances : List SignedBalance) (total : Option ℤ) (w : W)
      → Fetched token env.accounts balances start w
      → sum_from (pos 0) balances ≡ total
      → Totalled (totalled backend env balances total w)
  unfolding Totalled totalled IsTotalled
  totalled-Totalled token start balances none w fetched adds = tt
  totalled-Totalled token start balances (some total) w fetched adds = λ shown e.
      let same : balances ≡ shown = some_injective e in
      let (amounts, stated, summed) = sum_from-Amounts (pos 0) total balances adds in
      let printed : sum amounts ≡ total = sym (zero_+ℤ (sum amounts)) ∙ summed in
      (
        (token, start, subst (λ x. Fetched token env.accounts x start w) same fetched),
        (
          amounts,
          subst (λ x. Amounts x amounts) same stated,
          ap (λ x. some (print_bigint x)) (sym printed),
        ),
      )

  add_up-Totalled :
      (token : Text) (start : W)
      (read : Result Text (Result (Reply ReservesReply) (List SignedBalance)) × W)
      → Read token env.accounts start read
      → Totalled (and_then read (add_up backend env))
  unfolding Read Totalled add_up IsTotalled
  add_up-Totalled token start (err error, w) h = tt
  add_up-Totalled token start (ok (err reply), w) h = λ shown e. let stuck = sym h ∙ e in cc
  add_up-Totalled token start (ok (ok balances), w) h =
      totalled-Totalled token start balances _ w h refl

  with_token-Totalled :
      (token : Result Text (Option Text) × W) → Totalled (and_then token (with_token backend env))
  unfolding Totalled with_token IsTotalled
  with_token-Totalled (err error, w) = tt
  with_token-Totalled (ok none, w) = λ shown e. cc
  with_token-Totalled (ok (some token), w) = elim (Bool-cases (is_truthy token)) [
    | inl there ↦ rw there (
        add_up-Totalled token w (read_balances backend env token env.accounts w)
          (read_balances-Read token env.accounts w))
    | inr empty ↦ rw empty (λ shown e. cc)
  ]

  caught-Totalled :
      (run : Result Text (Reply ReservesReply) × W) (message : Text → Text)
      → Totalled run
      → Totalled {E = Text}
          (or_else run (λ error w. (ok (replied 502 (reserves_error (message error))), w)))
  unfolding Totalled IsTotalled
  caught-Totalled (ok reply, w) message h = h
  caught-Totalled (err error, w) message h = λ shown e. cc

  onchain-Totalled :
      (balance : Result Text Text × W)
      → Totalled {E = Text}
          (and_then balance (λ held w. (ok (replied 200 (onchain_reply held)), w)))
  unfolding Totalled IsTotalled
  onchain-Totalled (ok held, w) = λ shown e. cc
  onchain-Totalled (err error, w) = tt

  reserves_of-Totalled :
      (source : ReserveSource) (w : W) → Totalled (reserves_of backend env {E = Text} source w)
  unfolding reserves_of
  reserves_of-Totalled attested w =
      caught-Totalled (and_then (reserve_source_token backend env w) (with_token backend env))
        unreachable (with_token-Totalled (reserve_source_token backend env w))
  reserves_of-Totalled (onchain account code issuer) w =
      caught-Totalled _ (λ error. codes "could not read the reserve account: " ++ error)
        (onchain-Totalled (read_holding backend env account code issuer w))

  reserves_for-Totalled :
      (institution : Option DemoInstitution) (w : W)
      → Totalled (reserves_for backend env {E = Text} institution w)
  unfolding reserves_for Totalled IsTotalled
  reserves_for-Totalled none w = λ shown e. cc
  reserves_for-Totalled (some institution) w = reserves_of-Totalled institution.reserves w

  get_reserves-Totalled :
      (tenant : Option Text) (w : W) → Totalled (get_reserves backend env {E = Text} tenant w)
  unfolding get_reserves
  get_reserves-Totalled none w = reserves_for-Totalled (demo_institution []) w
  get_reserves-Totalled (some tenant) w = reserves_for-Totalled (demo_institution tenant) w

  -- Where the answer shows signed balances, they are those of the accounts of the environment, in
  -- their order: for each one, the sandbox was asked for the balance of that very account and
  -- answered well with the one shown, and nothing was asked behind the last. Every balance states an
  -- amount, an empty one 0, and the total shown is their sum.
  pub get_reserves-IsTotalled :
      (tenant : Option Text) (w v : W) (reply : Reply ReservesReply)
      → get_reserves backend env {E = Text} tenant w ≡ (ok reply, v)
      → IsTotalled reply.body v
  unfolding Totalled
  get_reserves-IsTotalled tenant w v reply h =
      subst (Totalled {E = Text}) h (get_reserves-Totalled tenant w)
