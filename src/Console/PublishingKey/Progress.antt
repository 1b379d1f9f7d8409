-- ===== src/Console/PublishingKey/Progress.antt =====
-- What the card of publishing-key-card.tsx shows when a run has ended.
use solva.Prelude.{◌≡◌, refl, sym, ◌⊎◌, inl, inr, false, Bool-cases, none, some, if◌then◌else◌}
use mathlib.Core.Path.{subst}
use solva.Prelude.Text.{Text}
use solva.Prelude.Effect.{Result, ok, err, Eff}
use solva.Console.Passkey.PublicKey.{Bytes}
use solva.Console.Passkey.Ceremony.{SignWithPasskeyResult}
use solva.Console.Passkey.Session.{Platform, Module, get_session}
use solva.Console.Passkey.Transaction.{Server}
use solva.Console.Passkey.Errors.{WalletError, describe_wallet_error}
use solva.Console.Passkey.Signer.{SignerNetwork}
use solva.Console.Passkey.Signer.Rules.{Post, outside_then}
use solva.Console.Passkey.Signer.Phases.{
  Reports, silent, one, two, three, reported, add_orchestrator_signer-Post,
}
use solva.Console.PublishingKey.{
  Status, pending, done, error, Statuses, Notice, failure, info, Card, Run, begin, on_phase,
  prepared, succeed, fail_as, stop, ended, args_of, with_deployer, try_block, run_card, set,
  set_status, initial_statuses,
}

-- The steps before the one that was reached are done, it has a status, and those behind it wait.
abbrev pub statuses_at : Reports → Status → Statuses
statuses_at silent s = record { session = s; simulate = pending; sign = pending; submit = pending }
statuses_at one s = record { session = done; simulate = s; sign = pending; submit = pending }
statuses_at two s = record { session = done; simulate = done; sign = s; submit = pending }
statuses_at three s = record { session = done; simulate = done; sign = done; submit = s }

abbrev pub notice_of : WalletError → Notice
notice_of described = record {
  kind = if described.already_exists then info else failure;
  text = described.message;
}

abbrev pub status_of : WalletError → Status
status_of described = if described.already_exists then done else error

abbrev pub Shows : Card → Card → Type 0
Shows card shown =
    (shown.running ≡ false)
    × (shown.orchestrator ≡ card.orchestrator)
    × (shown.registry ≡ card.registry)
    × (((hash : Text) × (shown.tx_hash ≡ some hash)
          × (shown.notice ≡ none)
          × (shown.statuses ≡ statuses_at three done))
        ⊎ ((k : Reports) × (message : Text) × (shown.tx_hash ≡ none)
            × (shown.notice ≡ some (notice_of (describe_wallet_error message)))
            × (shown.statuses ≡ statuses_at k (status_of (describe_wallet_error message)))))

-- A run that has reached the phases of `k` before anything was thrown.
abbrev reached : Card → Reports → Run
reached card k = reported on_phase k (prepared (begin card))

-- The parts of such a run that only its end changes, and what its end makes of the statuses.
abbrev IsUnderWay : Card → Reports → Run → Type 0
IsUnderWay card k run =
    (run.card.orchestrator ≡ card.orchestrator)
    × (run.card.registry ≡ card.registry)
    × (run.card.tx_hash ≡ none)
    × (run.card.notice ≡ none)
    × ((s : Status) → set_status run.current s run.card.statuses ≡ statuses_at k s)

reached-IsUnderWay : (card : Card) (k : Reports) → IsUnderWay card k (reached card k)
unfolding on_phase prepared begin set set_status initial_statuses
reached-IsUnderWay card silent = (refl, refl, refl, refl, λ s. refl)
reached-IsUnderWay card one = (refl, refl, refl, refl, λ s. refl)
reached-IsUnderWay card two = (refl, refl, refl, refl, λ s. refl)
reached-IsUnderWay card three = (refl, refl, refl, refl, λ s. refl)

begin-IsUnderWay : (card : Card) → IsUnderWay card silent (begin card)
unfolding begin set set_status initial_statuses
begin-IsUnderWay card = (refl, refl, refl, refl, λ s. refl)

fail-Shows :
    (card : Card) (message : Text) (k : Reports) (run : Run)
    → IsUnderWay card k run
    → Shows card (stop (fail_as (describe_wallet_error message) run))
unfolding fail_as set stop
fail-Shows card message k run (orchestrator, registry, hash, notice, statuses) =
    elim (Bool-cases (describe_wallet_error message).already_exists) [
      | inl there ↦ rw there (
        refl,
        orchestrator,
        registry,
        inr (k, message, hash, rw there refl, rw there (statuses done)),
      )
      | inr bad ↦ rw bad (
        refl,
        orchestrator,
        registry,
        inr (k, message, hash, rw bad refl, rw bad (statuses error)),
      )
    ]

succeed-Shows :
    (card : Card) (hash : Text) (run : Run)
    → IsUnderWay card three run
    → Shows card (stop (succeed hash run))
unfolding succeed set stop
succeed-Shows card hash run (orchestrator, registry, empty, notice, statuses) =
    (refl, orchestrator, registry, inl (hash, refl, notice, statuses done))

under_way :
    {W : Type 0} (card : Card) (x : Result Text Text × (Run × W))
    → Post (λ hash s. s.0 ≡ reached card three) (λ e s. (k : Reports) × (s.0 ≡ reached card k)) x
    → Post (λ hash s. IsUnderWay card three s.0) (λ e s. (k : Reports) × IsUnderWay card k s.0) x
under_way card (ok hash, (run, w)) at =
    subst (IsUnderWay card three) (sym at) (reached-IsUnderWay card three)
under_way card (err e, (run, w)) (k, at) =
    (k, subst (IsUnderWay card k) (sym at) (reached-IsUnderWay card k))

module _ {W : Type 0} (platform : Platform W) (network : SignerNetwork (Module W))
    (server : Server (Module W))
    (sign_with_passkey : Bytes → Eff (Module W) Text SignWithPasskeyResult) (wallet_address : Text)
    (card : Card) where
  abbrev Finished : Text → Run × Module W → Type 0
  Finished hash s = IsUnderWay card three s.0

  abbrev Broken : Text → Run × Module W → Type 0
  Broken message s = (k : Reports) × IsUnderWay card k s.0

  try_block-Post :
      (w : Module W)
      → Post Finished Broken
          (try_block platform network server sign_with_passkey wallet_address card (begin card, w))
  unfolding try_block with_deployer
  try_block-Post w =
      outside_then Finished Broken _ (begin card) (get_session platform) w
        (λ deployer v e. under_way card _ (
          add_orchestrator_signer-Post network server on_phase
            (args_of platform network server sign_with_passkey wallet_address deployer card)
            (prepared (begin card)) v))
        (λ message v e. (silent, begin-IsUnderWay card))

  ended-Shows :
      (x : Result Text Text × (Run × Module W)) → Post Finished Broken x → Shows card (ended x).0
  unfolding ended
  ended-Shows (ok hash, (run, w)) h = succeed-Shows card hash run h
  ended-Shows (err message, (run, w)) (k, h) = fail-Shows card message k run h

  -- When a run has ended the card is ready again, with the inputs as they were, and either all of
  -- the steps are done and a hash is shown, or a message stands there and the steps are done
  -- before the one at which the run was cut, and pending behind it; that one is in error, or done
  -- where the message says that the signer exists already.
  pub run_card-Shows :
      (w : Module W)
      → Shows card (run_card platform network server sign_with_passkey wallet_address card w).0
  unfolding run_card
  run_card-Shows w =
      ended-Shows
        (try_block platform network server sign_with_passkey wallet_address card (begin card, w))
        (try_block-Post w)
