-- ===== src/Console/Verify.antt =====
-- The public page that looks a proof up: apps/web/src/app/(public)/verify/verify-client.tsx, with
-- lib/mock/proofs.ts and lib/noir.ts behind it. Look-ups take the same time, so they are answered
-- in the order in which they were asked; the check in the browser is answered at once. The clock
-- is a parameter of each answer.

pub mod Sheet
pub mod Settled
mod Examples
use solva.Prelude.{
  ℕ, ◌+◌, ◌-◌, ◌≡◌, Bool, true, false, ◌&&◌, ◌||◌, List, [], ◌∷◌, ◌++◌, map, Option, none, some,
  ◌==◌, if◌then◌else◌,
}
use solva.Prelude.Text.{Text, codes, text_eq, is_truthy, trim}
use solva.SharedTypes.{Proof, PublicInputs}

pub record MockRecord : Type 0 where
  pub id : Text
  pub reserves_total : Text
  pub liabilities_total : Text
  pub root_hash : Text
  pub prev_reserves : Text
  pub age_seconds : ℕ

abbrev records : List MockRecord
records =
    record {
      id = codes "1042";
      reserves_total = codes "12400000";
      liabilities_total = codes "11980000";
      root_hash = codes "0x7a3f9c2e1b8d4a6f0e5c9d2a7b1f3e8c4d6a9b2e1c7f0d5a8b3e6c9f2a4d7be3";
      prev_reserves = codes "12100000";
      age_seconds = 130;
    }
    ∷ record {
      id = codes "1041";
      reserves_total = codes "8920000";
      liabilities_total = codes "8640000";
      root_hash = codes "0x3c8e1d7a9b2f4e6c0a5d8b1f7e3c9a2d6b4f0e8c1a7d5b3f9e2c6a4d0b8f1e7c";
      prev_reserves = codes "8810000";
      age_seconds = 5400;
    }
    ∷ record {
      id = codes "1038";
      reserves_total = codes "45200000";
      liabilities_total = codes "44990000";
      root_hash = codes "0x9f1a4d7b2e8c5a0f3d6b9e1c7a4f2d8b5e0c3a9f6d1b4e7c2a8f5d0b3e6c9a1f";
      prev_reserves = codes "45010000";
      age_seconds = 92000;
    }
    ∷ []

abbrev pub example_proof_ids : List Text
example_proof_ids = map (λ (rec : MockRecord). rec.id) records

-- Whether a unit is the letter, given in lower case, in either case.
abbrev is_letter : ℕ → ℕ → Bool
is_letter letter c = c == letter || c + 32 == letter

drop_mark : Text → Text
drop_mark [] = []
drop_mark (c ∷ s) = if c == b'_' || c == b'-' then s else c ∷ s

-- `replace(/^prf[_-]?/i, "")`.
unfoldable strip_prefix : Text → Text
unfolding drop_mark
strip_prefix (p ∷ r ∷ f ∷ s) =
    if is_letter b'p' p && is_letter b'r' r && is_letter b'f' f then drop_mark s else p ∷ r ∷ f ∷ s
strip_prefix s = s

find_record : Text → List MockRecord → Option MockRecord
find_record key [] = none
find_record key (rec ∷ rest) = if text_eq rec.id key then some rec else find_record key rest

abbrev published : ℕ → MockRecord → Proof
published now rec = record {
  id = rec.id;
  proof = codes "VWx0cmFIb25rUHJvb2ZCeXRlc0Jhc2U2NEVuY29kZWRQbGFjZWhvbGRlcg==";
  public_inputs = record {
    reserves_total = rec.reserves_total;
    liabilities_total = rec.liabilities_total;
    root_hash = rec.root_hash;
    prev_reserves = rec.prev_reserves;
  };
  published_at = now - rec.age_seconds;
}

proof_of : ℕ → Option MockRecord → Option Proof
proof_of now none = none
proof_of now (some rec) = some (published now rec)

-- `now` is the answer's time in seconds.
unfoldable pub lookup_proof : ℕ → Text → Option Proof
unfolding strip_prefix find_record proof_of
lookup_proof now id = proof_of now (find_record (strip_prefix (trim id)) records)

pub record ClientVerifyResult : Type 0 where
  pub verified : Bool
  pub unavailable_reason : Option Text

verify_proof_client_side : Proof → ClientVerifyResult
verify_proof_client_side proof = record {
  verified = false;
  unavailable_reason =
      some (codes "Client-side verification is not wired yet. Trust the on-chain check.");
}

pub data LookupState : Type 0 where
  idle loading found not_found : LookupState

pub data ClientCheck : Type 0 where
  idle running : ClientCheck
  done : (verified : Bool) (message : Text) → ClientCheck

-- The component's state, and the look-ups that it awaits, the oldest first.
pub record Page : Type 0 where
  pub query : Text
  pub state : LookupState
  pub proof : Option Proof
  pub missed_id : Text
  pub check : ClientCheck
  pub awaited : List Text

unfoldable pub opened : Page
opened = record {
  query = [];
  state = LookupState.idle;
  proof = none;
  missed_id = [];
  check = ClientCheck.idle;
  awaited = [];
}

unfoldable pub set_query : Text → Page → Page
set_query query page = record page { query = query }

-- Up to the `await`.
unfoldable pub look_up : Text → Page → Page
look_up raw_id page =
    let id = trim raw_id in
    if is_truthy id
    then record page {
      state = loading;
      proof = none;
      check = ClientCheck.idle;
      awaited = page.awaited ++ id ∷ [];
    }
    else page

-- Behind the `await`.
unfoldable pub looked_up : Text → Option Proof → Page → Page
looked_up id (some proof) page = record page { proof = some proof; state = found }
looked_up id none page = record page { missed_id = id; state = not_found }

-- The oldest of the look-ups is answered.
unfoldable pub answer_first : ℕ → List Text → Page → Page
unfolding looked_up
answer_first now [] page = page
answer_first now (id ∷ later) page =
    looked_up id (lookup_proof now id) (record page { awaited = later })

or_default : Option Text → Text
or_default none = codes "Verification could not run."
or_default (some reason) = reason

check_of : ClientVerifyResult → ClientCheck
unfolding or_default
check_of result = done result.verified (
    if result.verified
    then codes "The proof verified in your browser. You did not trust any server."
    else or_default result.unavailable_reason)

unfoldable run_client_check_of : Option Proof → Page → Page
unfolding check_of verify_proof_client_side
run_client_check_of none page = page
run_client_check_of (some proof) page = record page {
  check = check_of (verify_proof_client_side proof);
}

unfoldable pub run_client_check : Page → Page
unfolding run_client_check_of
run_client_check page = run_client_check_of page.proof page
