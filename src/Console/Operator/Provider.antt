-- ===== src/Console/Operator/Provider.antt =====
-- The state behind the console's pages: apps/web/src/lib/session/provider.tsx. A visitor's acts are
-- the constructors of `Step`; the signing in itself is the one of lib/auth.ts.
pub mod Stored
pub mod Returning
mod Examples
use solva.Prelude.{ℕ, Bool, true, false, Option, none, some, [], ◌∷◌, ◌++◌, if◌then◌else◌}
use solva.Prelude.Text.{Text, codes, is_truthy}
use solva.Prelude.Effect.{Result, ok, err}
use solva.Console.Operator.{
  OperatorRole, owner, InstitutionType, institution_type_name, anchor, Storage, load_active_wallet,
  save_active_wallet, clear_active_wallet, load_institution, save_institution,
}
use solva.Console.Auth.{SmartWalletSession, short_address}

pub data KybStatus : Type 0 where
  not_started in_review approved rejected : KybStatus

pub record KybInput : Type 0 where
  pub legal_name : Text
  pub type : InstitutionType
  pub jurisdiction : Text
  pub registration_number : Text
  pub contact_name : Text
  pub contact_email : Text

pub record Institution : Type 0 where
  pub id : Text
  pub legal_name : Text
  pub type : Text
  pub jurisdiction : Text
  pub registration_number : Text
  pub contact_name : Text
  pub contact_email : Text
  pub kyb_status : KybStatus
  pub submitted_at : Option ℕ

pub record OperatorSession : Type 0 where
  pub wallet_address : Text
  pub operator_label : Text
  pub role : OperatorRole
  pub institution : Institution

pub data SessionStatus : Type 0 where
  loading unauthenticated onboarding active : SessionStatus

-- The component's state and the browser's storage.
pub record Provided (W : Type 0) : Type 0 where
  pub session : Option OperatorSession
  pub is_loading : Bool
  pub world : W

-- `Date.now().toString(36)` is `stamp`.
unfoldable pub fresh_institution : Text → Institution
fresh_institution stamp = record {
  id = codes "inst_" ++ stamp;
  legal_name = [];
  type = institution_type_name anchor;
  jurisdiction = [];
  registration_number = [];
  contact_name = [];
  contact_email = [];
  kyb_status = not_started;
  submitted_at = none;
}

unfoldable pub build_session : Text → Text → Institution → OperatorSession
build_session wallet label institution = record {
  wallet_address = wallet;
  operator_label = label;
  role = owner;
  institution = institution;
}

status_of : KybStatus → SessionStatus
status_of approved = active
status_of not_started = onboarding
status_of in_review = onboarding
status_of rejected = onboarding

session_status : Option OperatorSession → SessionStatus
unfolding status_of
session_status none = unauthenticated
session_status (some session) = status_of session.institution.kyb_status

unfoldable pub derive_status : Option OperatorSession → Bool → SessionStatus
unfolding session_status
derive_status session is_loading = if is_loading then loading else session_status session

-- `loadInstitution(wallet) ?? freshInstitution()`.
abbrev pub or_fresh : Text → Result Text (Option Institution) → Institution
or_fresh stamp (ok (some institution)) = institution
or_fresh stamp (ok none) = fresh_institution stamp
or_fresh stamp (err error) = fresh_institution stamp

abbrev submitted : KybInput → ℕ → Institution → Institution
submitted input now institution = record institution {
  legal_name = input.legal_name;
  type = institution_type_name input.type;
  jurisdiction = input.jurisdiction;
  registration_number = input.registration_number;
  contact_name = input.contact_name;
  contact_email = input.contact_email;
  kyb_status = in_review;
  submitted_at = some now;
}

module _ {W : Type 0} (storage : Storage W Institution) where
  resumed : Text → Result Text (Option Text) × W → Provided W
  resumed stamp (ok none, w) = record { session = none; is_loading = false; world = w }
  resumed stamp (err error, w) = record { session = none; is_loading = false; world = w }
  resumed stamp (ok (some wallet), w) =
      if is_truthy wallet
      then (let (read, v) = load_institution storage {E = Text} wallet w in
          record {
            session = some (build_session wallet (short_address wallet) (or_fresh stamp read));
            is_loading = false;
            world = v;
          })
      else record { session = none; is_loading = false; world = w }

  -- The effect of the mounting.
  unfoldable pub mount : Text → W → Provided W
  unfolding resumed
  mount stamp w = resumed stamp (load_active_wallet storage {E = Text} w)

  -- `signIn`, behind the signing in.
  unfoldable pub enter : Text → SmartWalletSession → Provided W → Provided W
  enter stamp auth s =
      let wallet = auth.contract_address in
      let (read, u) = load_institution storage {E = Text} wallet s.world in
      let institution = or_fresh stamp read in
      let v = (save_institution storage {E = Text} wallet institution u).1 in
      record s {
        session = some (build_session wallet auth.label institution);
        world = (save_active_wallet storage {E = Text} wallet v).1;
      }

  stored : OperatorSession → Institution → Provided W → Provided W
  stored session institution s = record s {
    session = some (record session { institution = institution });
    world = (save_institution storage {E = Text} session.wallet_address institution s.world).1;
  }

  submit_in : KybInput → ℕ → Option OperatorSession → Provided W → Provided W
  unfolding stored
  submit_in input now none s = s
  submit_in input now (some session) s = stored session (submitted input now session.institution) s

  unfoldable pub submit_kyb : KybInput → ℕ → Provided W → Provided W
  unfolding submit_in
  submit_kyb input now s = submit_in input now s.session s

  approve_in : Option OperatorSession → Provided W → Provided W
  unfolding stored
  approve_in none s = s
  approve_in (some session) s =
      stored session (record session.institution { kyb_status = approved }) s

  unfoldable pub approve_kyb : Provided W → Provided W
  unfolding approve_in
  approve_kyb s = approve_in s.session s

  unfoldable pub leave : Provided W → Provided W
  leave s = record s { session = none; world = (clear_active_wallet storage {E = Text} s.world).1 }

  -- Loading a page mounts it over the storage as it is.
  pub data Step : Provided W → Provided W → Type 0 where
    mounts : (stamp : Text) (s : Provided W) → Step s (mount stamp s.world)
    enters :
        (stamp : Text) (auth : SmartWalletSession) (s : Provided W) → Step s (enter stamp auth s)
    submits : (input : KybInput) (now : ℕ) (s : Provided W) → Step s (submit_kyb input now s)
    approves : (s : Provided W) → Step s (approve_kyb s)
    leaves : (s : Provided W) → Step s (leave s)

  -- From a page that mounts for the first time.
  pub data Reached : Provided W → Type 0 where
    opened : (stamp : Text) (w : W) → Reached (mount stamp w)
    next : {s t : Provided W} → Reached s → Step s t → Reached t
