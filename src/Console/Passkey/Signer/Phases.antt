-- ===== src/Console/Passkey/Signer/Phases.antt =====
-- The phases that a run of signer.ts reports, in their order.
use solva.Prelude.{◌≡◌, refl, ◌+◌, [], ◌∷◌}
use solva.Prelude.Text.{Text, codes}
use solva.Console.Passkey.Transaction.{Server, prepare_sign_submit}
use solva.Console.Passkey.Encoding.{
  AuthEntry, payload_for_auth_entry, attach_signature_to_entry, set_expiration,
}
use solva.Console.Passkey.Signer.{
  AddSignerPhase, simulate, sign, submit, call, invoke_host_function, SignerNetwork,
  AddOrchestratorSignerArgs, orchestrator_signer, entry_of, signature_of, tell, build_tx,
  submit_signed, approve, authorize, add_orchestrator_signer,
}
use solva.Console.Passkey.Signer.Rules.{Post, outside_then, of_result_then, outside_last}

-- How many of the phases were reported.
pub data Reports : Type 0 where
  silent one two three : Reports

abbrev pub reported : {R : Type 0} → (AddSignerPhase → R → R) → Reports → R → R
reported on_phase silent r = r
reported on_phase one r = on_phase simulate r
reported on_phase two r = on_phase sign (on_phase simulate r)
reported on_phase three r = on_phase submit (on_phase sign (on_phase simulate r))

module _ {R W : Type 0} (network : SignerNetwork W) (server : Server W)
    (on_phase : AddSignerPhase → R → R) (args : AddOrchestratorSignerArgs W) (r : R) where
  abbrev pub All : Text → R × W → Type 0
  All hash s = s.0 ≡ reported on_phase three r

  abbrev pub Some : Text → R × W → Type 0
  Some error s = (k : Reports) × (s.0 ≡ reported on_phase k r)

  submit_signed-Post :
      (unsigned_tx : Text) (signed : AuthEntry) (w : W)
      → Post All Some (
          submit_signed network server on_phase args unsigned_tx signed
            (reported on_phase two r, w))
  unfolding submit_signed tell
  submit_signed-Post unsigned_tx signed w =
      outside_then All Some _ (reported on_phase two r)
        (build_tx network server on_phase args
          (invoke_host_function (network.func_of unsigned_tx) (signed ∷ [])))
        w
        (λ signed_tx v e.
          outside_last All Some (reported on_phase three r)
            (prepare_sign_submit server args.session signed_tx) v (λ hash u f. refl)
            (λ error u f. (three, refl)))
        (λ error v e. (two, refl))

  approve-Post :
      (unsigned_tx : Text) (ready : AuthEntry) (w : W)
      → Post All Some
          (approve network server on_phase args unsigned_tx ready (reported on_phase one r, w))
  unfolding approve tell
  approve-Post unsigned_tx ready w =
      of_result_then All Some _ (reported on_phase one r)
        (payload_for_auth_entry network.xdr ready network.network_passphrase) w
        (λ payload e.
          outside_then All Some _ (reported on_phase two r) (args.sign_payload payload) w
            (λ assertion v f.
              of_result_then All Some _ (reported on_phase two r)
                (attach_signature_to_entry network.xdr (signature_of assertion) ready) v
                (λ signed g. submit_signed-Post unsigned_tx signed v) (λ error g. (two, refl)))
            (λ error v f. (two, refl)))
        (λ error e. (one, refl))

  authorize-Post :
      (unsigned_tx : Text) (w : W)
      → Post All Some (authorize network server on_phase args unsigned_tx (r, w))
  unfolding authorize tell
  authorize-Post unsigned_tx w =
      outside_then All Some _ (reported on_phase one r) (network.simulate_transaction unsigned_tx) w
        (λ sim v e.
          of_result_then All Some _ (reported on_phase one r) (entry_of sim) v
            (λ auth f.
              outside_then All Some _ (reported on_phase one r) network.get_latest_ledger v
                (λ sequence u g.
                  of_result_then All Some _ (reported on_phase one r)
                    (set_expiration network.xdr (sequence + 100) auth) u
                    (λ ready k. approve-Post unsigned_tx ready u) (λ error k. (one, refl)))
                (λ error u g. (one, refl)))
            (λ error f. (one, refl)))
        (λ error v e. (one, refl))

  -- A run that ends well has reported all phases in their order, any other the first so many.
  pub add_orchestrator_signer-Post :
      (w : W) → Post All Some (add_orchestrator_signer network server on_phase args (r, w))
  unfolding add_orchestrator_signer
  add_orchestrator_signer-Post w =
      of_result_then All Some _ r (network.decode_ed25519_public_key args.orchestrator_address) w
        (λ pub_key e.
          of_result_then All Some _ r
            (network.signer_args (orchestrator_signer pub_key args.registry_contract)) w
            (λ call_args f.
              outside_then All Some _ r
                (build_tx network server on_phase args
                  (call args.wallet_address (codes "add_signer") call_args))
                w (λ unsigned_tx v g. authorize-Post unsigned_tx v) (λ error v g. (silent, refl)))
            (λ error f. (silent, refl)))
        (λ error e. (silent, refl))
