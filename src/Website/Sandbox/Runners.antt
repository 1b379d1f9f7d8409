-- ===== src/Website/Sandbox/Runners.antt =====
-- What each step of the demo asks of the site's own API and how it judges the answer: the runners
-- of apps/website/src/features/product/hooks/use-sandbox.ts.
use solva.Prelude.{
  ℕ, Bool, true, false, ◌&&◌, ◌||◌, not, List, [], ◌∷◌, Option, none, some, if◌then◌else◌,
}
use solva.Prelude.Text.{Text, codes, is_truthy}
use solva.Prelude.Effect.{Result, ok, err}
use solva.Website.Institutions.{DemoInstitution, ReserveSource, attested, onchain}
use solva.Website.Sandbox.{
  StepId, registry, connect, reserves, prove, verify, inclusion, LogLine, warn, Scenario,
  scenario_id, ProofDto, ChainRecord, SignedBalance,
}
use solva.Website.Sandbox.Lines.{
  line, or_text, connect_lines, onchain_connect_lines, onchain_reserves_lines, reserves_lines,
  rejected_lines, published_lines, record_covers, verify_lines, inclusion_lines,
}

-- `RunResult`, with the proof a run of `prove` hands to `setProof`.
pub record RunResult : Type 0 where
  pub succeeded : Bool
  pub retry : Bool
  pub lines : List LogLine
  pub proof : Option ProofDto

-- The answers, a missing field as none.
pub record ConnectReply : Type 0 where
  pub error : Option Text
  pub client_id : Option Text
  pub code : Option Text
  pub access_token : Option Text
  pub token_type : Option Text
  pub expires_in : Option ℕ

pub record ReservesReply : Type 0 where
  pub error : Option Text
  pub total : Option Text
  pub balances : Option (List SignedBalance)
  pub onchain : Bool

pub record RunReply : Type 0 where
  pub error : Option Text
  pub published : Bool
  pub rejected : Bool
  pub busy : Bool
  pub proof : Option ProofDto

pub record RecordReply : Type 0 where
  pub rec : Option ChainRecord
  pub error : Option Text

pub record InclusionReply : Type 0 where
  pub error : Option Text
  pub included : Bool
  pub balance : Option Text
  pub path_length : Option ℕ
  pub chain_proof_id : Option Text
  pub on_chain : Bool

abbrev pub Reply : StepId → Type 0
Reply registry = Unit
Reply connect = ConnectReply
Reply reserves = ReservesReply
Reply prove = RunReply
Reply verify = RecordReply
Reply inclusion = InclusionReply

-- A text field that counts as true: there and not empty.
unfoldable pub given : Option Text → Bool
given none = false
given (some t) = is_truthy t

abbrev passed : List LogLine → RunResult
passed lines = record { succeeded = true; retry = false; lines = lines; proof = none }

abbrev refused : List LogLine → RunResult
refused lines = record { succeeded = false; retry = false; lines = lines; proof = none }

-- One warning: the error of the answer, or else the text given.
abbrev warned : Option Text → Text → RunResult
warned error otherwise = refused (line warn (or_text error otherwise ∷ []) ∷ [])

connect_with : Option Text → ConnectReply → RunResult
unfolding given
connect_with none reply = warned reply.error (codes "authorisation failed")
connect_with (some token) reply =
    if given reply.error || not (is_truthy token)
    then warned reply.error (codes "authorisation failed")
    else passed (
        connect_lines (record {
          client_id = reply.client_id;
          code = reply.code;
          token_type = reply.token_type;
          access_token = token;
          expires_in = reply.expires_in;
        }))

unfoldable pub run_connect : ReserveSource → Result Text ConnectReply → Result Text RunResult
unfolding connect_with
run_connect (onchain account code issuer) reply =
    ok (passed (onchain_connect_lines (onchain account code issuer)))
run_connect attested (err thrown) = err thrown
run_connect attested (ok reply) = ok (connect_with reply.access_token reply)

balances_result : Option (List SignedBalance) → ReservesReply → RunResult
unfolding given
balances_result none reply = warned reply.error (codes "could not read the signed balances")
balances_result (some balances) reply =
    if given reply.error
    then warned reply.error (codes "could not read the signed balances")
    else passed (reserves_lines balances reply.total)

unfoldable pub run_reserves : ReserveSource → ReservesReply → RunResult
unfolding balances_result given
run_reserves source reply =
    if reply.onchain && given reply.total
    then passed (onchain_reserves_lines source (or_text reply.total []))
    else balances_result reply.balances reply

-- The `scenario` field of the request a run of `prove` posts.
pub posted_scenario : ReserveSource → Scenario → Option Text
unfolding scenario_id
posted_scenario attested scenario = some (scenario_id scenario)
posted_scenario (onchain account code issuer) scenario = none

unfoldable pub published_result : Option ProofDto → RunReply → DemoInstitution → RunResult
published_result none reply institution = warned reply.error (codes "the backend is unreachable")
published_result (some proof) reply institution =
    if reply.published
    then record {
      succeeded = true;
      retry = false;
      lines = published_lines proof institution;
      proof = some proof;
    }
    else warned reply.error (codes "the backend is unreachable")

unfoldable pub run_prove : DemoInstitution → RunReply → RunResult
unfolding published_result
run_prove institution reply =
    if reply.busy
    then record {
      succeeded = false;
      retry = true;
      lines =
          line warn (
            codes "Another run is in progress for this institution. Give it a moment and run again."
            ∷ [])
          ∷ [];
      proof = none;
    }
    else (if reply.rejected
        then refused rejected_lines
        else published_result reply.proof reply institution)

unfoldable pub judged_record :
    Text → Option Bool → ChainRecord → DemoInstitution → Result Text RunResult
judged_record syntax_error none rec institution = err syntax_error
judged_record syntax_error (some covers) rec institution = ok (record {
  succeeded = covers;
  retry = false;
  lines = verify_lines covers rec institution;
  proof = none;
})

unfoldable pub run_verify :
    Text → Option ChainRecord → Option Text → DemoInstitution → Result Text RunResult
unfolding judged_record
run_verify syntax_error none error institution =
    ok (warned error (codes "no published record to check"))
run_verify syntax_error (some rec) error institution =
    judged_record syntax_error (record_covers rec) rec institution

unfoldable pub run_inclusion : DemoInstitution → InclusionReply → RunResult
unfolding given
run_inclusion institution reply =
    if given reply.error || not reply.included
    then warned reply.error (codes "holder not found in this proof")
    else record {
      succeeded = reply.on_chain;
      retry = false;
      lines =
          inclusion_lines
            (record {
              balance = reply.balance;
              path_length = reply.path_length;
              chain_proof_id = reply.chain_proof_id;
              on_chain = reply.on_chain;
            })
            institution;
      proof = none;
    }

unfoldable pub answered : (A : Type 0) → (A → RunResult) → Result Text A → Result Text RunResult
answered _ judge (ok reply) = ok (judge reply)
answered _ judge (err thrown) = err thrown

-- `runners[id]()`: an answer that failed is `String(error)`, and `syntax_error` is what `String`
-- shows of the error `BigInt` throws.
unfoldable pub runner :
    Text → (id : StepId) → DemoInstitution → Result Text (Reply id) → Result Text RunResult
unfolding answered run_connect run_reserves run_prove run_inclusion run_verify
runner syntax_error registry institution reply = ok (passed [])
runner syntax_error connect institution reply = run_connect institution.reserves reply
runner syntax_error reserves institution reply =
    answered ReservesReply (run_reserves institution.reserves) reply
runner syntax_error prove institution reply = answered RunReply (run_prove institution) reply
runner syntax_error verify institution (err thrown) = err thrown
runner syntax_error verify institution (ok reply) =
    run_verify syntax_error reply.rec reply.error institution
runner syntax_error inclusion institution reply =
    answered InclusionReply (run_inclusion institution) reply
