-- ===== src/Console/Operator/Provider/Examples.antt =====
-- A storage of records and a returning operator: apps/web/src/lib/session.
use solva.Prelude.{
  ℕ, zero, suc, ◌≡◌, refl, ap, false, List, [], ◌∷◌, Option, none, some, if◌then◌else◌, Bool-cases,
  inl, inr, ◌∙◌,
}
use solva.Prelude.Text.{Text, codes, text_eq, text_eq_refl, text_eq_iff}
use solva.Prelude.Effect.{Result, ok, err}
use solva.Console.Auth.{SmartWalletSession}
use solva.Console.Operator.{owner, Storage}
use solva.Console.Operator.Provider.{
  KybStatus, not_started, in_review, approved, rejected, Institution, OperatorSession, Provided,
  build_session, mount, enter, approve_kyb, leave, Reached, opened, next, enters, approves,
}
use solva.Console.Operator.Provider.Stored.{Works}
use solva.Console.Operator.Provider.Returning.{leave-enter_status}

-- A text as its units, each one greater, with 0 behind them.
put : Text → Text → Text
put [] rest = 0 ∷ rest
put (c ∷ s) rest = suc c ∷ put s rest

take_text : Text → Text × Text
take_text [] = ([], [])
take_text (zero ∷ s) = ([], s)
take_text (suc c ∷ s) = let (t, rest) = take_text s in (c ∷ t, rest)

take_text-put : (s rest : Text) → take_text (put s rest) ≡ (s, rest)
unfolding take_text put
take_text-put [] rest = refl
take_text-put (c ∷ s) rest = ap (λ p. (c ∷ p.0, p.1)) (take_text-put s rest)

put_option : Option ℕ → Text
put_option none = []
put_option (some n) = n ∷ []

option_of : Text → Option ℕ
option_of [] = none
option_of (n ∷ s) = some n

option_of-put_option : (o : Option ℕ) → option_of (put_option o) ≡ o
unfolding option_of put_option
option_of-put_option none = refl
option_of-put_option (some n) = refl

code_of : KybStatus → ℕ
code_of not_started = 0
code_of in_review = 1
code_of approved = 2
code_of rejected = 3

status_of : ℕ → KybStatus
status_of zero = not_started
status_of (suc zero) = in_review
status_of (suc (suc zero)) = approved
status_of (suc (suc (suc n))) = rejected

status_of-code_of : (status : KybStatus) → status_of (code_of status) ≡ status
unfolding status_of code_of
status_of-code_of not_started = refl
status_of-code_of in_review = refl
status_of-code_of approved = refl
status_of-code_of rejected = refl

written : Institution → Text
written i =
    code_of i.kyb_status
    ∷ put i.id (
        put i.legal_name (
          put i.type (
            put i.jurisdiction (
              put i.registration_number
                (put i.contact_name (put i.contact_email (put_option i.submitted_at)))))))

read_fields : KybStatus → Text → Institution
read_fields status s =
    let (id, s1) = take_text s in
    let (legal_name, s2) = take_text s1 in
    let (type, s3) = take_text s2 in
    let (jurisdiction, s4) = take_text s3 in
    let (registration_number, s5) = take_text s4 in
    let (contact_name, s6) = take_text s5 in
    let (contact_email, s7) = take_text s6 in
    record {
      id = id;
      legal_name = legal_name;
      type = type;
      jurisdiction = jurisdiction;
      registration_number = registration_number;
      contact_name = contact_name;
      contact_email = contact_email;
      kyb_status = status;
      submitted_at = option_of s7;
    }

read : Text → Result Text Institution
read [] = err (codes "SyntaxError")
read (c ∷ s) = ok (read_fields (status_of c) s)

read-written : (i : Institution) → read (written i) ≡ ok i
unfolding read written read_fields
read-written i =
    simp (take_text-put, option_of-put_option i.submitted_at, status_of-code_of i.kyb_status)

abbrev Items : Type 0
Items = List (Text × Text)

abbrev content : Items → Text → Option Text
content [] key = none
content ((name, value) ∷ items) key = if text_eq name key then some value else content items key

abbrev without : Text → Items → Items
without key [] = []
without key ((name, value) ∷ items) =
    if text_eq name key then without key items else (name, value) ∷ without key items

abbrev storage : Storage Items Institution
storage = record {
  get_item = λ key w. (ok (content w key), w);
  set_item = λ key value w. (ok tt, (key, value) ∷ w);
  remove_item = λ key w. (ok tt, without key w);
  parse = read;
  stringify = written;
  type_of = λ i. some i.type;
}

content-without :
    (key other : Text) (w : Items)
    → text_eq key other ≡ false
    → content (without key w) other ≡ content w other
content-without key other [] h = refl
content-without key other ((name, value) ∷ w) h = elim (Bool-cases (text_eq name key)) [
  | inl same ↦
      let at_key : name ≡ key = (text_eq_iff name key).0 same in
      let not_other : text_eq name other ≡ false = ap (λ k. text_eq k other) at_key ∙ h in
      simp (same, not_other, content-without key other w h)
  | inr apart ↦ elim (Bool-cases (text_eq name other)) [
    | inl found ↦ simp (apart, found)
    | inr missing ↦ simp (apart, missing, content-without key other w h)
  ]
]

storage-Works : Works storage content
unfolding written
storage-Works = record {
  got = λ key w. refl;
  set = λ key value w. simp (text_eq_refl key);
  set_apart = λ key value other w h. simp h;
  removed_apart = content-without;
  told = read-written;
  filled = λ i. refl;
  typed = λ i. refl;
}

abbrev auth : SmartWalletSession
auth = record { contract_address = codes "C1"; tenant = codes "t"; label = codes "C1" }

abbrev entered : Provided Items
entered = enter storage (codes "9") auth (mount storage (codes "8") [])

reviewed : Reached storage (approve_kyb storage entered)
reviewed =
    next (next (opened (codes "8") []) (enters (codes "9") auth (mount storage (codes "8") [])))
      (approves entered)

abbrev session : OperatorSession
session = record {
  wallet_address = codes "C1";
  operator_label = codes "C1";
  role = owner;
  institution = record {
    id = codes "inst_9";
    legal_name = [];
    type = codes "anchor";
    jurisdiction = [];
    registration_number = [];
    contact_name = [];
    contact_email = [];
    kyb_status = approved;
    submitted_at = none;
  };
}

approved-session : (approve_kyb storage entered).session ≡ some session
unfolding approve_kyb enter build_session solva.Console.Operator.load_institution mount
    solva.Console.Operator.load_active_wallet solva.Console.Operator.Provider.fresh_institution
approved-session = refl

leave-enter_status_example :
    (again : OperatorSession) × ((enter storage
        (codes "10")
        auth
        (leave storage (approve_kyb storage entered))).session
      ≡ some again)
    × (again.wallet_address ≡ codes "C1")
    × (again.institution.kyb_status ≡ approved)
leave-enter_status_example =
    leave-enter_status storage content storage-Works (approve_kyb storage entered) session
      (codes "10") auth reviewed approved-session refl
