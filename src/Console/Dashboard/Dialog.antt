-- ===== src/Console/Dashboard/Dialog.antt =====
-- The dialog that connects a source: apps/web/src/components/dashboard/connect-source-dialog.tsx.
-- What it hands to `onConnect` is kept with the state, the newest first.
pub mod Proper
use solva.Prelude.{ℕ, Bool, true, false, not, ◌||◌, List, [], ◌∷◌, ◌≡◌}
use solva.Prelude.Text.{Text, codes, is_truthy, trim}
use solva.Console.Format.{attested, onchain}
use solva.Console.Dashboard.{SourceConfig}

abbrev pub custodians : List Text
custodians =
    codes "Kestrel Custody"
    ∷ codes "Northbridge Custody"
    ∷ codes "Sterling Reserve"
    ∷ codes "Atlas Safekeeping"
    ∷ codes "Harbor Trust Co."
    ∷ []

pub data DialogStep : Type 0 where
  choose choose_custodian consent wallet : DialogStep

pub record Dialog : Type 0 where
  pub open_now : Bool
  pub step : DialogStep
  pub custodian : Text
  pub wallet_label : Text
  pub wallet_address : Text
  pub busy : Bool
  pub asked : List SourceConfig

unfoldable pub opened : Dialog
opened = record {
  open_now = false;
  step = choose;
  custodian = [];
  wallet_label = [];
  wallet_address = [];
  busy = false;
  asked = [];
}

unfoldable pub reset : Dialog → Dialog
reset dialog = record dialog {
  step = choose;
  custodian = [];
  wallet_label = [];
  wallet_address = [];
  busy = false;
}

unfoldable pub close : Dialog → Dialog
unfolding reset
close dialog = reset (record dialog { open_now = false })

-- `finish` up to its `await`; `close` is the rest.
unfoldable pub finish : SourceConfig → Dialog → Dialog
finish config dialog = record dialog { busy = true; asked = config ∷ dialog.asked }

unfoldable pub on_open_change : Bool → Dialog → Dialog
unfolding reset
on_open_change true dialog = record dialog { open_now = true }
on_open_change false dialog = reset (record dialog { open_now = false })

unfoldable pub set_step : DialogStep → Dialog → Dialog
set_step step dialog = record dialog { step = step }

unfoldable pub pick_custodian : Text → Dialog → Dialog
pick_custodian name dialog = record dialog { custodian = name; step = consent }

unfoldable pub attested_config : Dialog → SourceConfig
attested_config dialog = record {
  type = attested;
  label = dialog.custodian;
  settings = codes "read-only balance consent";
}

unfoldable pub wallet_config : Dialog → SourceConfig
wallet_config dialog = record {
  type = onchain;
  label = trim dialog.wallet_label;
  settings = trim dialog.wallet_address;
}

-- Whether the button of the wallet's step is disabled.
unfoldable pub wallet_disabled : Dialog → Bool
wallet_disabled dialog =
    dialog.busy
    || not (is_truthy (trim dialog.wallet_label))
    || not (is_truthy (trim dialog.wallet_address))
