-- ===== src/Console/Passkey/Session.antt =====
-- The account that pays for a wallet: apps/web/src/lib/passkey/session.ts.
pub mod Once
use solva.Prelude.{
  ℕ, zero, suc, ◌+◌, ◌*◌, Bool, true, false, List, [], ◌∷◌, ◌++◌, Option, none, some, if◌then◌else◌,
  leb, ltb, ◌&&◌,
}
use solva.Prelude.Text.{Text, codes}
use solva.Prelude.Effect.{Result, ok, err, Eff, ret, throw, ◌>>=◌, ◌>>◌, catching}

-- A keypair is told by its secret; `public_key` reads the other half.
pub record Session : Type 0 where
  pub keypair : Text
  pub public_key : Text

-- What the session uses of the browser and the network. `load` and `save` are the storage under
-- `solva:passkey:deployer-secret`.
pub record Platform (W : Type 0) : Type 0 where
  pub load : Eff W Text (Option Text)
  pub save : Text → Eff W Text (Unit {0})
  -- `Keypair.fromSecret`, which throws, `Keypair.random` and `keypair.publicKey()`.
  pub from_secret : Text → Result Text Text
  pub random : W → Text × W
  pub public_key : Text → Text
  pub get_account : Text → Eff W Text (Unit {0})
  -- The status of friendbot's answer.
  pub friendbot : Text → Eff W Text ℕ
  pub wait : ℕ → W → W

-- The module's `sessionPromise`: a promise that settled is its result.
pub record Module (W : Type 0) : Type 0 where
  pub session : Option (Result Text Session)
  pub world : W

module _ {W : Type 0} (platform : Platform W) where
  from_stored : Option Text → Eff W Text (Option Text)
  from_stored none w = (ok none, w)
  from_stored (some []) w = (ok none, w)
  from_stored (some (c ∷ s)) w = elim (platform.from_secret (c ∷ s)) [
    | ok keypair ↦ (ok (some keypair), w)
    | err error ↦ (err error, w)
  ]

  unfoldable pub restore : {E : Type 0} → Eff W E (Option Text)
  unfolding from_stored
  restore = catching (do secret ← platform.load; from_stored secret) (λ error. ret none)

  unfoldable pub persist : {E : Type 0} → Text → Eff W E (Unit {0})
  persist keypair = catching (platform.save keypair) (λ error. ret tt)

  abbrev session_of : Text → Session
  session_of keypair = record { keypair = keypair; public_key = platform.public_key keypair }

  -- `res.ok`, of one attempt; an error counts as no.
  funded : {E : Type 0} → Text → Eff W E Bool
  funded account =
      catching (do status ← platform.friendbot account; ret (leb 200 status && ltb status 300))
        (λ error. ret false)

  -- The attempts from `attempt` on, `left` of them.
  unfoldable pub fund : ℕ → ℕ → Text → Eff W Text Session
  unfolding funded persist
  fund zero attempt keypair =
      throw (codes "Could not fund the deployer account via friendbot. Try again.")
  fund (suc left) attempt keypair =
      let next = fund left (attempt + 1) keypair in
      (do
        done ← funded (platform.public_key keypair)
        if done
            then (do persist keypair; ret (session_of keypair))
            else (λ w. next (platform.wait (1500 * attempt) w)))

  keypair_of : Option Text → W → Text × W
  keypair_of (some keypair) w = (keypair, w)
  keypair_of none w = platform.random w

  existing_or_fund : Text → Bool → Eff W Text Session
  unfolding fund
  existing_or_fund keypair true = do persist keypair; ret (session_of keypair)
  existing_or_fund keypair false = fund 3 1 keypair

  account_exists : {E : Type 0} → Text → Eff W E Bool
  account_exists keypair =
      catching (do platform.get_account (platform.public_key keypair); ret true)
        (λ error. ret false)

  session_for : Option Text → Eff W Text Session
  unfolding keypair_of account_exists existing_or_fund
  session_for restored w =
      let (keypair, v) = keypair_of restored w in
      (do exists ← account_exists keypair; existing_or_fund keypair exists) v

  unfoldable pub create_session : Eff W Text Session
  unfolding session_for restore
  create_session = do restored ← restore; session_for restored

  settle : Result Text Session × W → Result Text Session × Module W
  settle (result, w) = (result, record { session = some result; world = w })

  session_in : Option (Result Text Session) → W → Result Text Session × Module W
  unfolding settle create_session
  session_in (some result) w = (result, record { session = some result; world = w })
  session_in none w = settle (create_session w)

  -- `getSession`: the promise is made once, and a failed one is kept too.
  unfoldable pub get_session : Eff (Module W) Text Session
  unfolding session_in
  get_session kept = session_in kept.session kept.world
