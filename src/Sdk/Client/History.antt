-- ===== src/Sdk/Client/History.antt =====
-- Any sequence of calls on one `Solva` object (packages/sdk-ts/src/solva.ts).
use mathlib.Core.Path.{subst}
use solva.Prelude.{◌≡◌, ◌⊎◌, inl, inr, refl, ◌∙◌, sym, List, [], ◌∷◌, none}
use solva.Prelude.Text.{Text}
use solva.Prelude.Effect.{Result, ok, err}
use solva.SharedTypes.{InclusionRef}
use solva.Sdk.{Thrown}
use solva.Sdk.Orchestrator.{Platform, get_inclusion_ref}
use solva.Sdk.Registry.{Contract}
use solva.Sdk.Client.{
  Solva, Session, RefArg, text, full, connect_source, run_proof_cycle, get_latest_proof, get_proof,
  get_on_chain_latest_proof, verify_inclusion,
}
use solva.Sdk.Client.Reads.{
  Bound, Extends, Extends-refl, resolve_chain-Bound, on_chain_latest_solva, verify_full_solva,
}

pub data Call : Type 0 where
  connect : Text → Call
  cycle : Call
  latest : Call
  proof : Text → Call
  on_chain_latest : Call
  verify : RefArg → Call

Extends-trans : {s t u : Solva} → Extends s t → Extends t u → Extends s u
Extends-trans {s} {t} {u} h k = record {
  same_orchestrator = k.same_orchestrator ∙ h.same_orchestrator;
  same_endpoints = k.same_endpoints ∙ h.same_endpoints;
  kept = kept_both h.kept k.kept;
}
  where
    kept_both :
        (t.chain ≡ s.chain) ⊎ (s.chain ≡ none)
        → (u.chain ≡ t.chain) ⊎ (t.chain ≡ none)
        → (u.chain ≡ s.chain) ⊎ (s.chain ≡ none)
    kept_both (inr absent) later = inr absent
    kept_both (inl same) (inl later) = inl (later ∙ same)
    kept_both (inl same) (inr absent) = inr (sym same ∙ absent)

-- What every call keeps: the client stays bound to the configuration, and once set stays the same.
abbrev pub Keeps : Solva → Solva → Type 0
Keeps s t = Bound s.endpoints t.chain × Extends s t

module _ {W : Type 0} (platform : Platform W) (contract : Contract W) where
  -- One call, with whatever it answers or throws left aside.
  pub perform : Call → Session W → Session W
  perform (connect config) s = (connect_source platform contract config s).1
  perform cycle s = (run_proof_cycle platform contract s).1
  perform latest s = (get_latest_proof platform contract s).1
  perform (proof id) s = (get_proof platform contract id s).1
  perform on_chain_latest s = (get_on_chain_latest_proof platform contract s).1
  perform (verify arg) s = (verify_inclusion platform contract arg s).1

  pub run : List Call → Session W → Session W
  run [] s = s
  run (call ∷ calls) s = run calls (perform call s)

  verify-Keeps :
      (arg : RefArg) (s : Session W)
      → Bound s.solva.endpoints s.solva.chain
      → Keeps s.solva (verify_inclusion platform contract arg s).1.solva
  unfolding verify_inclusion
  verify-Keeps (full ref) s b =
      rw (verify_full_solva platform contract ref s) (resolve_chain-Bound platform contract s b)
  verify-Keeps (text ref) s b =
      go (get_inclusion_ref platform s.solva.orchestrator ref s.world) refl
    where
      go :
          (r : Result Thrown InclusionRef × W)
          → get_inclusion_ref platform s.solva.orchestrator ref s.world ≡ r
          → Keeps s.solva (verify_inclusion platform contract (text ref) s).1.solva
      go (ok found, w) k =
          simp (k, verify_full_solva platform contract found (record s { world = w }))
            (resolve_chain-Bound platform contract (record s { world = w }) b)
      go (err e, w) k = simp k (b, Extends-refl s.solva)

  perform-Keeps :
      (call : Call) (s : Session W)
      → Bound s.solva.endpoints s.solva.chain
      → Keeps s.solva (perform call s).solva
  unfolding perform connect_source run_proof_cycle get_latest_proof get_proof
  perform-Keeps (verify arg) s b = verify-Keeps arg s b
  perform-Keeps on_chain_latest s b =
      rw (on_chain_latest_solva platform contract s) (resolve_chain-Bound platform contract s b)
  perform-Keeps _ s b = (b, Extends-refl s.solva)

  -- Whatever calls are made on an object whose client is bound to its configuration or not yet
  -- there, and whatever they answer: the configuration stays, the client that reads the chain is
  -- bound to it, and a client that was there is never replaced.
  pub run-Keeps :
      (calls : List Call) (s : Session W)
      → Bound s.solva.endpoints s.solva.chain
      → Keeps s.solva (run calls s).solva
  unfolding run
  run-Keeps [] s b = (b, Extends-refl s.solva)
  run-Keeps (call ∷ calls) s b =
      let (bound, step) = perform-Keeps call s b in
      let (later, more) = run-Keeps calls (perform call s) (rw step.same_endpoints bound) in
      (
        subst (λ n. Bound n (run calls (perform call s)).solva.chain) step.same_endpoints later,
        Extends-trans step more,
      )
