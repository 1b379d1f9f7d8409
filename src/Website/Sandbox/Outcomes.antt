-- ===== src/Website/Sandbox/Outcomes.antt =====
-- What an answer must say for its step to be done: the runners of
-- apps/website/src/features/product/hooks/use-sandbox.ts.
use solva.Prelude.{◌≡◌, ◌≢◌, refl, ap, ◌∙◌, Bool, true, false, Option, none, some, arith}
use solva.Prelude.Int.{ℤ, ◌≤ℤ◌}
use solva.Prelude.Text.{Text}
use solva.Prelude.Effect.{Result, ok, err}
use solva.Oracle.Verdicts.{Covers}
use solva.Website.Institutions.{DemoInstitution}
use solva.Website.Sandbox.{prove, verify, inclusion, done, ChainRecord}
use solva.Website.Sandbox.Lines.{record_covers, compare_record}
use solva.Website.Sandbox.Runners.{
  RunResult, RunReply, RecordReply, InclusionReply, runner, given, run_verify, judged_record,
}
use solva.Website.Sandbox.Hook.{Sandbox, Reachable, finish}
use solva.Website.Sandbox.Progress.Done.{Passed, Answered, Steps, done-Answered}

compare_record-Covers :
    (r l : Option ℤ)
    → compare_record r l ≡ some true
    → (a : ℤ) × (b : ℤ) × (r ≡ some a) × (l ≡ some b) × (b ≤ℤ a)
unfolding compare_record
compare_record-Covers (some r) (some l) h = (r, l, refl, refl, ground arith)
compare_record-Covers (some r) none h = cc
compare_record-Covers none (some l) h = cc
compare_record-Covers none none h = cc

abbrev well : Result Text RunResult → Bool
well (ok result) = result.succeeded
well (err thrown) = false

Passed-succeeded : (result : RunResult) → Passed (ok result) → result.succeeded ≡ true
Passed-succeeded result (found, same, h) = ap well same ∙ h

judged_record-Passed :
    (syntax_error : Text) (covers : Option Bool) (rec : ChainRecord) (institution : DemoInstitution)
    → Passed (judged_record syntax_error covers rec institution)
    → covers ≡ some true
unfolding judged_record
judged_record-Passed syntax_error none rec institution (found, same, h) = cc
judged_record-Passed syntax_error (some covers) rec institution (found, same, h) =
    ap some (ap well same ∙ h)

run_verify-Passed :
    (syntax_error : Text) (rec : Option ChainRecord) (error : Option Text)
    (institution : DemoInstitution)
    → Passed (run_verify syntax_error rec error institution)
    → (read : ChainRecord) × (rec ≡ some read) × Covers read.reserves read.liabilities
unfolding run_verify record_covers
run_verify-Passed syntax_error none error institution passed =
    let absurd : false ≡ true = Passed-succeeded _ passed in cc
run_verify-Passed syntax_error (some read) error institution passed = (
  read,
  refl,
  compare_record-Covers _ _ (judged_record-Passed syntax_error _ read institution passed),
)

module _ (syntax_error : Text) where
  -- In the run that led to the state, from a state that was reached, and for its institution, the
  -- verification was answered with a record that covers.
  abbrev pub Covered : Sandbox → Type 0
  Covered s =
      (t : Sandbox) × (reply : RecordReply) × (rec : ChainRecord) × Reachable syntax_error t
      × (t.pending ≡ some verify)
      × (t.institution ≡ s.institution)
      × Steps syntax_error (finish syntax_error verify (ok reply) t) s
      × (reply.rec ≡ some rec)
      × Covers rec.reserves rec.liabilities

  answer-Covered : (s : Sandbox) → Answered syntax_error s verify → Covered s
  unfolding runner
  answer-Covered s (t, ok reply, before, out, same, passed, steps) =
      let (rec, read, covers) =
        run_verify-Passed syntax_error reply.rec reply.error t.institution passed in
      (t, reply, rec, before, out, same, steps, read, covers)
  answer-Covered s (t, err thrown, before, out, same, (found, ended, _), steps) = cc

  -- Where the demo shows its verification as done, that step's request was answered in the same run,
  -- which neither a choice of an institution nor a start over has ended since, for the same
  -- institution, with a record whose reserves and liabilities are integers, the reserves no less than
  -- the liabilities.
  pub verified_covers :
      {s : Sandbox} → Reachable syntax_error s → s.status.verify ≡ done → Covered s
  verified_covers {s} history h =
      answer-Covered s (done-Answered syntax_error verify history (λ e. cc) h)

  abbrev pub Confirmed : Sandbox → Type 0
  Confirmed s =
      (t : Sandbox) × (reply : InclusionReply) × Reachable syntax_error t
      × (t.pending ≡ some inclusion)
      × (t.institution ≡ s.institution)
      × Steps syntax_error (finish syntax_error inclusion (ok reply) t) s
      × (given reply.error ≡ false)
      × (reply.included ≡ true)
      × (reply.on_chain ≡ true)

  abbrev pub Published : Sandbox → Type 0
  Published s =
      (t : Sandbox) × (reply : RunReply) × Reachable syntax_error t
      × (t.pending ≡ some prove)
      × (t.institution ≡ s.institution)
      × Steps syntax_error (finish syntax_error prove (ok reply) t) s
      × (reply.busy ≡ false)
      × (reply.rejected ≡ false)
      × (reply.published ≡ true)
      × (reply.proof ≢ none)
