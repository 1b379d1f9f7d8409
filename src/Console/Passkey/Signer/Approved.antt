-- ===== src/Console/Passkey/Signer/Approved.antt =====
-- What a finished run of signer.ts stands for.
use solva.Prelude.{◌≡◌, refl, ◌∙◌, ℕ, ◌+◌, [], ◌∷◌, none}
use mathlib.Core.Path.{subst}
use solva.Prelude.Text.{Text, codes}
use solva.Prelude.Effect.{ok, and_then-eq-ok, ret}
use solva.Console.Passkey.PublicKey.{Bytes}
use solva.Console.Passkey.Ceremony.{SignWithPasskeyResult}
use solva.Console.Passkey.Transaction.{Server, prepare_sign_submit}
use solva.Console.Passkey.Encoding.{
  ScVal, AuthEntry, payload_for_auth_entry, attach_signature_to_entry, set_expiration,
}
use solva.Console.Passkey.Encoding.Signed.{Carries, attach-payload, attached-Carries}
use solva.Console.Passkey.Signer.{
  AddSignerPhase, simulate, sign, submit, Operation, call, invoke_host_function, SignerNetwork,
  AddOrchestratorSignerArgs, Signer, orchestrator_signer, entry_of, signature_of, tell, build_tx,
  submit_signed, approve, authorize, add_orchestrator_signer,
}
use solva.Console.Passkey.Signer.Rules.{
  Post, Post-weaken, Any, outside_then, of_result_then, outside_last,
}

module _ {R W : Type 0} (network : SignerNetwork W) (server : Server W)
    (on_phase : AddSignerPhase → R → R) (args : AddOrchestratorSignerArgs W) where
  abbrev passphrase : Text
  passphrase = network.network_passphrase

  built :
      (operation : Operation) (tx : Text) (w v : W)
      → build_tx network server on_phase args operation w ≡ (ok tx, v)
      → (account : Text) × (tx ≡ network.build account operation)
  unfolding build_tx
  built operation tx w v h =
      let (account, u, read, made) =
        and_then-eq-ok (network.get_account args.session.public_key w)
          (λ (account : Text). ret (network.build account operation)) tx v h in
      (account, cc)

  -- The hash is that of the one transaction submitted, which invokes the function of the first
  -- with the entry alone.
  abbrev pub Sent : Text → AuthEntry → Text → W → Type 0
  Sent unsigned_tx signed hash end =
      (account : Text) × (start : W) × (prepare_sign_submit server args.session
          (network.build account (invoke_host_function (network.func_of unsigned_tx) (signed ∷ [])))
          start
        ≡ (ok hash, end))

  -- The passkey has signed the payload of the entry as it was submitted.
  abbrev pub Granted : Text → ℕ → Text → W → Type 0
  Granted unsigned_tx ledger hash end =
      (signed : AuthEntry) × (payload : Bytes) × (assertion : SignWithPasskeyResult) × (before : W)
      × (after : W) × (payload_for_auth_entry network.xdr signed passphrase ≡ ok payload)
      × (args.sign_payload payload before ≡ (ok assertion, after))
      × Carries (signature_of assertion) ledger signed
      × Sent unsigned_tx signed hash end

  submit_signed-Sent :
      (unsigned_tx : Text) (signed : AuthEntry) (r : R) (w : W)
      → Post
          (λ hash s. Sent unsigned_tx signed hash s.1)
          Any
          (submit_signed network server on_phase args unsigned_tx signed (r, w))
  unfolding submit_signed tell
  submit_signed-Sent unsigned_tx signed r w =
      outside_then (λ hash s. Sent unsigned_tx signed hash s.1) Any _ r
        (build_tx network server on_phase args operation) w
        (λ signed_tx v e.
          let (account, made) = built operation signed_tx w v e in
          outside_last (λ hash s. Sent unsigned_tx signed hash s.1) Any (on_phase submit r)
            (prepare_sign_submit server args.session signed_tx) v
            (λ hash u f. (account, v, rw (← made) f)) (λ error u f. tt))
        (λ error v e. tt)
    where
      operation : Operation
      operation = invoke_host_function (network.func_of unsigned_tx) (signed ∷ [])

  approve-Granted :
      (unsigned_tx : Text) (auth ready : AuthEntry) (ledger : ℕ) (r : R) (w : W)
      → set_expiration network.xdr ledger auth ≡ ok ready
      → Post
          (λ hash s. Granted unsigned_tx ledger hash s.1)
          Any
          (approve network server on_phase args unsigned_tx ready (r, w))
  unfolding approve tell attach_signature_to_entry set_expiration
  approve-Granted unsigned_tx auth ready ledger r w fresh =
      of_result_then Q Any _ r (payload_for_auth_entry network.xdr ready passphrase) w
        (λ payload hashed.
          outside_then Q Any _ (on_phase sign r) (args.sign_payload payload) w
            (λ assertion v approved.
              of_result_then Q Any _ (on_phase sign r)
                (attach_signature_to_entry network.xdr (signature_of assertion) ready) v
                (λ signed attached.
                  Post-weaken (λ hash s. Sent unsigned_tx signed hash s.1) Q Any _
                    (λ hash s sent. (
                      signed,
                      payload,
                      assertion,
                      w,
                      v,
                      attach-payload network.xdr (signature_of assertion) ready signed passphrase
                            attached
                          ∙ hashed,
                      approved,
                      attached-Carries network.xdr (signature_of assertion) ledger auth.credentials
                          auth.root_invocation ready signed fresh attached,
                      sent,
                    ))
                    (submit_signed-Sent unsigned_tx signed (on_phase sign r) v))
                (λ error e. tt))
            (λ error v e. tt))
        (λ error e. tt)
    where
      Q : Text → R × W → Type 0
      Q hash s = Granted unsigned_tx ledger hash s.1

  -- The expiration lies 100 ledgers behind the one that the node was then at.
  abbrev pub Timely : Text → Text → W → Type 0
  Timely unsigned_tx hash end =
      (sequence : ℕ) × (asked : W) × (told : W) × (network.get_latest_ledger asked
        ≡ (ok sequence, told))
      × Granted unsigned_tx (sequence + 100) hash end

  authorize-Timely :
      (unsigned_tx : Text) (r : R) (w : W)
      → Post
          (λ hash s. Timely unsigned_tx hash s.1)
          Any
          (authorize network server on_phase args unsigned_tx (r, w))
  unfolding authorize tell
  authorize-Timely unsigned_tx r w =
      outside_then Q Any _ (on_phase simulate r) (network.simulate_transaction unsigned_tx) w
        (λ sim v e.
          of_result_then Q Any _ (on_phase simulate r) (entry_of sim) v
            (λ auth f.
              outside_then Q Any _ (on_phase simulate r) network.get_latest_ledger v
                (λ sequence u told.
                  of_result_then Q Any _ (on_phase simulate r)
                    (set_expiration network.xdr (sequence + 100) auth) u
                    (λ ready fresh.
                      Post-weaken (λ hash s. Granted unsigned_tx (sequence + 100) hash s.1) Q Any _
                        (λ hash s granted. (sequence, v, u, told, granted))
                        (approve-Granted unsigned_tx auth ready (sequence + 100)
                          (on_phase simulate r) u fresh))
                    (λ error g. tt))
                (λ error u g. tt))
            (λ error f. tt))
        (λ error v e. tt)
    where
      Q : Text → R × W → Type 0
      Q hash s = Timely unsigned_tx hash s.1

  -- The first transaction asks for the orchestrator's key as a signer for that registry alone.
  abbrev pub Scoped : Text → W → Type 0
  Scoped hash end =
      (signer : Signer) × (call_args : ScVal) × (account : Text)
      × (network.decode_ed25519_public_key args.orchestrator_address ≡ ok signer.key)
      × (signer.expiration ≡ none)
      × (signer.limits ≡ args.registry_contract ∷ [])
      × (network.signer_args signer ≡ ok call_args)
      × Timely (network.build account (call args.wallet_address (codes "add_signer") call_args))
          hash end

  add_orchestrator_signer-Scoped :
      (r : R) (w : W)
      → Post
          (λ hash s. Scoped hash s.1)
          Any
          (add_orchestrator_signer network server on_phase args (r, w))
  unfolding add_orchestrator_signer orchestrator_signer
  add_orchestrator_signer-Scoped r w =
      of_result_then Q Any _ r (network.decode_ed25519_public_key args.orchestrator_address) w
        (λ key decoded.
          of_result_then Q Any _ r
            (network.signer_args (orchestrator_signer key args.registry_contract)) w
            (λ call_args encoded.
              outside_then Q Any _ r
                (build_tx network server on_phase args
                  (call args.wallet_address (codes "add_signer") call_args))
                w
                (λ unsigned_tx v e.
                  let (account, made) =
                    built (call args.wallet_address (codes "add_signer") call_args) unsigned_tx w v
                      e in
                  Post-weaken (λ hash s. Timely unsigned_tx hash s.1) Q Any _
                    (λ hash s timely. (
                      orchestrator_signer key args.registry_contract,
                      call_args,
                      account,
                      decoded,
                      refl,
                      refl,
                      encoded,
                      subst (λ (tx : Text). Timely tx hash s.1) made timely,
                    ))
                    (authorize-Timely unsigned_tx r v))
                (λ error v e. tt))
            (λ error f. tt))
        (λ error e. tt)
    where
      Q : Text → R × W → Type 0
      Q hash s = Scoped hash s.1

  -- Where a signer was added, the hash returned is that of a transaction whose only entry carries
  -- the passkey's signature over that very entry, with an expiration 100 ledgers behind the one
  -- read from the node; its function is that of a call of the wallet's add_signer, for a signer
  -- with the orchestrator's key, no expiration, and the registry as the one contract that it is
  -- limited to.
  pub add_orchestrator_signer-approved :
      (r : R) (w : W) (hash : Text) (s : R × W)
      → add_orchestrator_signer network server on_phase args (r, w) ≡ (ok hash, s)
      → Scoped hash s.1
  add_orchestrator_signer-approved r w hash s h =
      subst (Post (λ hash s. Scoped hash s.1) Any) h (add_orchestrator_signer-Scoped r w)
