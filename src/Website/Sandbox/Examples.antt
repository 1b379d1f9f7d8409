-- ===== src/Website/Sandbox/Examples.antt =====
-- A whole run of the demo for an institution that holds its reserves on chain, one that fails, and
-- the theorems at them.
use solva.Prelude.{◌<◌, ◌≡◌, ◌≢◌, refl, ap, true, false, [], Option, none, some, arith}
use solva.Prelude.Text.{Text, codes}
use solva.Prelude.BigInt.{parse_bigint}
use solva.Prelude.Effect.{Result, ok, err}
use solva.Website.Institutions.{DemoInstitution, harbor_wallet, solstice}
use solva.Website.Sandbox.{
  StepId, registry, connect, reserves, prove, verify, inclusion, locked, ready, done, failed, at,
  ContractDto, ProofDto, next_step,
}
use solva.Website.Sandbox.Lines.{record_covers}
use solva.Website.Sandbox.Runners.{
  Reply, runner, given, run_prove, run_verify, run_inclusion, published_result, judged_record,
  answered, run_connect, run_reserves,
}
use solva.Website.Sandbox.Hook.{
  Sandbox, initial_sandbox, set_step, set_step_logged, clear, has_entry, set_institution,
  load_registry, loaded, start, settle, finish, unlock, keep_proof, choose_institution,
  registry_answered, press_run, step_answered, Reachable, opened, after,
}
use solva.Website.Sandbox.Progress.{rank, Phase}
use solva.Website.Sandbox.Progress.Reached.{reachable-Phase, unlocked_in_order}
use solva.Website.Sandbox.Outcomes.{Covered, verified_covers}

abbrev thrown : Text
thrown = codes "SyntaxError"

abbrev entry : Result Text (Option ContractDto × Option ProofDto)
entry = ok (some (record { contract_id = some (codes "C1"); network = none }), none)

abbrev missing_entry : Result Text (Option ContractDto × Option ProofDto)
missing_entry = ok (none, none)

abbrev listed : Sandbox
listed = loaded (load_registry entry) (set_institution harbor_wallet initial_sandbox)

abbrev connected : Sandbox
connected = finish thrown connect (err []) (start connect listed)

abbrev on_account_reply : Result Text (Reply reserves)
on_account_reply =
    ok
      (record { error = none; total = some (codes "12000000000"); balances = none; onchain = true })

abbrev read : Sandbox
read = finish thrown reserves on_account_reply (start reserves connected)

abbrev publication_reply : Result Text (Reply prove)
publication_reply = ok (record {
  error = none;
  published = true;
  rejected = false;
  busy = false;
  proof = some (record {
    id = none;
    chain_proof_id = some 4;
    root_hash = none;
    reserves_total = some (codes "12000000000");
    liabilities_total = some (codes "10000000000");
  });
})

abbrev published : Sandbox
published = finish thrown prove publication_reply (start prove read)

abbrev stored_reply : Result Text (Reply verify)
stored_reply = ok (record {
  rec = some (record { reserves = codes "12000000000"; liabilities = codes "10000000000" });
  error = none;
})

abbrev verified : Sandbox
verified = finish thrown verify stored_reply (start verify published)

abbrev found_reply : Result Text (Reply inclusion)
found_reply = ok (record {
  error = none;
  included = true;
  balance = some (codes "50000000");
  path_length = some 3;
  chain_proof_id = some (codes "4");
  on_chain = true;
})

abbrev counted : Sandbox
counted = finish thrown inclusion found_reply (start inclusion verified)

different : harbor_wallet ≢ solstice
unfolding harbor_wallet solstice
different h = let kinds = ap (λ (d : DemoInstitution). d.reserves) h in cc

listed-Reachable : Reachable thrown listed
unfolding initial_sandbox set_institution
listed-Reachable =
    after (after opened (choose_institution harbor_wallet refl different))
      (registry_answered entry refl)

step-Reachable :
    (s : Sandbox) (id : StepId) (reply : Result Text (Reply id))
    → Reachable thrown s
    → s.busy ≡ false
    → at s.status id ≡ ready
    → Reachable thrown (finish thrown id reply (start id s))
unfolding start
step-Reachable s id reply history idle live =
    after (after history (press_run id idle live)) (step_answered id reply refl)

verified-Reachable : Reachable thrown verified
unfolding initial_sandbox set_institution load_registry loaded has_entry start finish settle unlock
    keep_proof set_step set_step_logged clear runner run_connect run_reserves run_prove run_verify
    run_inclusion given next_step record_covers parse_bigint published_result judged_record answered
    harbor_wallet
verified-Reachable =
    step-Reachable published verify stored_reply
      (step-Reachable read prove publication_reply
        (step-Reachable connected reserves on_account_reply
          (step-Reachable listed connect (err []) listed-Reachable refl refl) refl refl)
        refl refl)
      refl refl

counted-Reachable : Reachable thrown counted
unfolding initial_sandbox set_institution load_registry loaded has_entry start finish settle unlock
    keep_proof set_step set_step_logged clear runner run_connect run_reserves run_prove run_verify
    run_inclusion given next_step record_covers parse_bigint published_result judged_record answered
    harbor_wallet
counted-Reachable = step-Reachable verified inclusion found_reply verified-Reachable refl refl

verified_done : verified.status.verify ≡ done
unfolding initial_sandbox set_institution load_registry loaded has_entry start finish settle unlock
    keep_proof set_step set_step_logged clear runner run_connect run_reserves run_prove run_verify
    run_inclusion given next_step record_covers parse_bigint published_result judged_record answered
    harbor_wallet
verified_done = refl

counted_done : counted.status.inclusion ≡ done
unfolding initial_sandbox set_institution load_registry loaded has_entry start finish settle unlock
    keep_proof set_step set_step_logged clear runner run_connect run_reserves run_prove run_verify
    run_inclusion given next_step record_covers parse_bigint published_result judged_record answered
    harbor_wallet
counted_done = refl

abbrev unlisted : Sandbox
unlisted = loaded (load_registry missing_entry) initial_sandbox

unlisted-Reachable : Reachable thrown unlisted
unfolding initial_sandbox
unlisted-Reachable = after opened (registry_answered missing_entry refl)

unlisted_failed : at unlisted.status registry ≡ failed
unfolding initial_sandbox load_registry loaded has_entry set_step_logged
unlisted_failed = refl

unlisted_idle : unlisted.busy ≡ false
unfolding initial_sandbox load_registry loaded has_entry set_step_logged
unlisted_idle = refl

counted_unlocked : at counted.status inclusion ≢ locked
counted_unlocked h = let shut = counted_done in cc

before_last : rank prove < rank inclusion
unfolding rank
before_last = omega arith

reachable-Phase_example : Phase counted
reachable-Phase_example = reachable-Phase thrown counted-Reachable

counted_order : at counted.status prove ≡ done
unfolding rank
counted_order =
    unlocked_in_order thrown inclusion prove counted-Reachable counted_unlocked before_last

verified_covers_example : Covered thrown verified
verified_covers_example = verified_covers thrown verified-Reachable verified_done
