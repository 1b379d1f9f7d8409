-- ===== src/Console/PublishingKey.antt =====
-- The card that gives the orchestrator a signer: `run` and the checks of
-- apps/web/src/components/dashboard/publishing-key-card.tsx. The passkey's part is a parameter.
pub mod Progress
mod Examples
use solva.Prelude.{
  ℕ, Bool, true, false, ◌&&◌, not, List, [], ◌∷◌, Option, none, some, ◌==◌, length, if◌then◌else◌,
}
use solva.Prelude.Text.{Text, codes, trim}
use solva.Prelude.Effect.{Result, ok, err, Eff, ret, ◌>>=◌}
use solva.Console.Passkey.PublicKey.{Bytes}
use solva.Console.Passkey.Ceremony.{SignWithPasskeyResult}
use solva.Console.Passkey.Session.{Session, Platform, Module, get_session}
use solva.Console.Passkey.Transaction.{Server}
use solva.Console.Passkey.Errors.{WalletError, describe_wallet_error}
use solva.Console.Passkey.Signer.{
  AddSignerPhase, simulate, sign, submit, SignerNetwork, AddOrchestratorSignerArgs, outside,
  add_orchestrator_signer,
}

pub data StepId : Type 0 where
  session : StepId
  phase : AddSignerPhase → StepId

pub data Status : Type 0 where
  pending active done error : Status

-- One status for each of the steps.
pub record Statuses : Type 0 where
  pub session : Status
  pub simulate : Status
  pub sign : Status
  pub submit : Status

unfoldable pub initial_statuses : Statuses
initial_statuses = record {
  session = pending;
  simulate = pending;
  sign = pending;
  submit = pending;
}

unfoldable pub looks_like_address : Text → ℕ → Bool
looks_like_address [] prefix = false
looks_like_address (c ∷ s) prefix = c == prefix && length (c ∷ s) == 56

pub data NoticeKind : Type 0 where
  failure info : NoticeKind

pub record Notice : Type 0 where
  pub kind : NoticeKind
  pub text : Text

pub record Card : Type 0 where
  pub orchestrator : Text
  pub registry : Text
  pub statuses : Statuses
  pub running : Bool
  pub notice : Option Notice
  pub tx_hash : Option Text

unfoldable pub can_run : Card → Bool
unfolding looks_like_address
can_run card =
    looks_like_address (trim card.orchestrator) b'G'
    && looks_like_address (trim card.registry) b'C'
    && not card.running

set_status : StepId → Status → Statuses → Statuses
set_status session status statuses = record statuses { session = status }
set_status (phase simulate) status statuses = record statuses { simulate = status }
set_status (phase sign) status statuses = record statuses { sign = status }
set_status (phase submit) status statuses = record statuses { submit = status }

unfoldable pub set : StepId → Status → Card → Card
unfolding set_status
set id status card = record card { statuses = set_status id status card.statuses }

-- The card, and the variable `current` of a run.
pub record Run : Type 0 where
  pub current : StepId
  pub card : Card

unfoldable pub begin : Card → Run
unfolding set initial_statuses
begin card = record {
  current = session;
  card =
      set session active (record card {
        notice = none;
        tx_hash = none;
        statuses = initial_statuses;
        running = true;
      });
}

unfoldable pub on_phase : AddSignerPhase → Run → Run
unfolding set
on_phase next run = record {
  current = phase next;
  card = set (phase next) active (set run.current done run.card);
}

unfoldable pub prepared : Run → Run
unfolding set
prepared run = record run { card = set session done run.card }

unfoldable pub succeed : Text → Run → Card
unfolding set
succeed hash run = record (set run.current done run.card) { tx_hash = some hash }

unfoldable pub fail_as : WalletError → Run → Card
unfolding set
fail_as described run =
    if described.already_exists
    then record (set run.current done run.card) {
      notice = some (record { kind = info; text = described.message });
    }
    else record (set run.current error run.card) {
      notice = some (record { kind = failure; text = described.message });
    }

-- The `finally` block.
unfoldable pub stop : Card → Card
stop card = record card { running = false }

-- The `catch` and `finally` blocks, for the message that was thrown.
unfoldable pub ended : {W : Type 0} → Result Text Text × (Run × W) → Card × W
unfolding succeed fail_as stop describe_wallet_error
ended (ok hash, (run, w)) = (stop (succeed hash run), w)
ended (err message, (run, w)) = (stop (fail_as (describe_wallet_error message) run), w)

module _ {W : Type 0} (platform : Platform W) (network : SignerNetwork (Module W))
    (server : Server (Module W))
    (sign_with_passkey : Bytes → Eff (Module W) Text SignWithPasskeyResult)
    (wallet_address : Text) where
  args_of : Session → Card → AddOrchestratorSignerArgs (Module W)
  args_of deployer card = record {
    session = deployer;
    wallet_address = wallet_address;
    orchestrator_address = trim card.orchestrator;
    registry_contract = trim card.registry;
    sign_payload = sign_with_passkey;
  }

  -- The `try` block behind the deployer's account; the inputs are those at the click.
  unfoldable pub with_deployer : Card → Session → Eff (Run × Module W) Text Text
  unfolding args_of prepared
  with_deployer card deployer (run, w) =
      add_orchestrator_signer network server on_phase (args_of deployer card) (prepared run, w)

  unfoldable pub try_block : Card → Eff (Run × Module W) Text Text
  unfolding with_deployer outside get_session
  try_block card = do deployer ← outside (get_session platform); with_deployer card deployer

  unfoldable pub run_card : Card → Module W → Card × Module W
  unfolding try_block begin ended
  run_card card w = ended (try_block card (begin card, w))
