-- ===== src/Console/Operator.antt =====
-- The session of an operator: apps/web/src/lib/session (types.ts, permissions.ts and store.ts). The
-- browser's storage and the JSON coder are parameters.
pub mod Provider
use solva.Prelude.{Bool, false, List, [], ◌∷◌, ◌++◌, Option, none, some, ◌||◌, if◌then◌else◌}
use solva.Prelude.Text.{Text, codes, text_eq, is_truthy}
use solva.Prelude.Effect.{Result, ok, err, Eff, ret, ◌>>=◌, catching}

pub data OperatorRole : Type 0 where
  owner compliance operator viewer : OperatorRole

pub data Action : Type 0 where
  cycle_run source_connect report_export disclosure_manage team_manage keys_manage : Action

-- The names of the actions.
abbrev pub action_name : Action → Text
action_name cycle_run = codes "cycle.run"
action_name source_connect = codes "source.connect"
action_name report_export = codes "report.export"
action_name disclosure_manage = codes "disclosure.manage"
action_name team_manage = codes "team.manage"
action_name keys_manage = codes "keys.manage"

unfoldable pub matrix : OperatorRole → List Action
matrix owner =
    cycle_run ∷ source_connect ∷ report_export ∷ disclosure_manage ∷ team_manage ∷ keys_manage ∷ []
matrix compliance = report_export ∷ disclosure_manage ∷ []
matrix operator = cycle_run ∷ source_connect ∷ report_export ∷ []
matrix viewer = []

includes : List Action → Action → Bool
includes [] action = false
includes (allowed ∷ more) action =
    text_eq (action_name allowed) (action_name action) || includes more action

unfoldable pub can : OperatorRole → Action → Bool
unfolding matrix includes
can role action = includes (matrix role) action

pub data InstitutionType : Type 0 where
  anchor custodial_app exchange custodian : InstitutionType

abbrev pub institution_type_name : InstitutionType → Text
institution_type_name anchor = codes "anchor"
institution_type_name custodial_app = codes "custodial-app"
institution_type_name exchange = codes "exchange"
institution_type_name custodian = codes "custodian"

unfoldable pub is_institution_type : Text → Bool
is_institution_type value =
    text_eq value (institution_type_name anchor)
    || text_eq value (institution_type_name custodial_app)
    || text_eq value (institution_type_name exchange)
    || text_eq value (institution_type_name custodian)

-- An institution, `I`, as it is stored, is told by its `type`.
pub record Storage (W I : Type 0) : Type 0 where
  pub get_item : Text → Eff W Text (Option Text)
  pub set_item : Text → Text → Eff W Text (Unit {0})
  pub remove_item : Text → Eff W Text (Unit {0})
  pub parse : Text → Result Text I
  pub stringify : I → Text
  -- The field `type`, or none where it is no text.
  pub type_of : I → Option Text

abbrev pub active_wallet_key : Text
active_wallet_key = codes "solva.active-wallet"

abbrev pub institution_prefix : Text
institution_prefix = codes "solva.institution."

known_type : Option Text → Bool
unfolding is_institution_type
known_type none = false
known_type (some value) = is_institution_type value

module _ {W I : Type 0} (storage : Storage W I) where
  unfoldable pub load_active_wallet : {E : Type 0} → Eff W E (Option Text)
  load_active_wallet = catching (storage.get_item active_wallet_key) (λ error. ret none)

  unfoldable pub save_active_wallet : {E : Type 0} → Text → Eff W E (Unit {0})
  save_active_wallet wallet = catching (storage.set_item active_wallet_key wallet) (λ error. ret tt)

  unfoldable pub clear_active_wallet : {E : Type 0} → Eff W E (Unit {0})
  clear_active_wallet = catching (storage.remove_item active_wallet_key) (λ error. ret tt)

  checked : Result Text I → Result Text (Option I)
  unfolding known_type
  checked (ok institution) =
      if known_type (storage.type_of institution) then ok (some institution) else ok none
  checked (err error) = err error

  read_institution : Option Text → Result Text (Option I)
  unfolding checked
  read_institution none = ok none
  read_institution (some raw) = if is_truthy raw then checked (storage.parse raw) else ok none

  unfoldable pub load_institution : {E : Type 0} → Text → Eff W E (Option I)
  unfolding read_institution
  load_institution wallet =
      catching
        (do raw ← storage.get_item (institution_prefix ++ wallet); λ w. (read_institution raw, w))
        (λ error. ret none)

  unfoldable pub save_institution : {E : Type 0} → Text → I → Eff W E (Unit {0})
  save_institution wallet institution =
      catching (storage.set_item (institution_prefix ++ wallet) (storage.stringify institution))
        (λ error. ret tt)
