-- ===== src/Console/Passkey/Encoding/Signed.antt =====
-- What a signature changes in an authorization entry, and what it leaves: challenge.ts and encoder.ts.
use solva.Prelude.{◌≡◌, refl, ℕ}
use solva.Prelude.Text.{Text}
use solva.Prelude.Effect.{Result, ok}
use solva.Console.Passkey.Encoding.{
  ScVal, AuthEntry, AddressCredentials, Credentials, source_account, of_address, Xdr,
  payload_for_auth_entry, payload_of, attach_signature_to_entry, change_address,
}

ok_injective : {A : Type 0} (a b : A) → ◌≡◌ {A = Result Text A} (ok a) (ok b) → a ≡ b
ok_injective a b h = cc

-- The entry is authorized by an address, with that signature and expiration.
abbrev pub Carries : ScVal → ℕ → AuthEntry → Type 0
Carries signature ledger signed =
    (address : AddressCredentials) × (signed.credentials ≡ of_address address)
    × (address.signature ≡ signature)
    × (address.signature_expiration_ledger ≡ ledger)

module _ (xdr : Xdr) where
  changed-payload :
      (signature : ScVal) (credentials : Credentials) (invocation passphrase : Text)
      (signed : AuthEntry)
      → change_address xdr
          (λ (a : AddressCredentials). record a { signature = signature })
          credentials
          invocation
        ≡ ok signed
      → payload_of xdr signed.credentials signed.root_invocation passphrase
        ≡ payload_of xdr credentials invocation passphrase
  unfolding change_address payload_of
  changed-payload signature source_account invocation passphrase signed h = cc
  changed-payload signature (of_address address) invocation passphrase signed h =
      rw (← (ok_injective _ signed h))

  -- What is hashed of an entry does not depend on its signature.
  pub attach-payload :
      (signature : ScVal) (ready signed : AuthEntry) (passphrase : Text)
      → attach_signature_to_entry xdr signature ready ≡ ok signed
      → payload_for_auth_entry xdr signed passphrase ≡ payload_for_auth_entry xdr ready passphrase
  unfolding attach_signature_to_entry payload_for_auth_entry
  attach-payload signature ready signed passphrase h =
      changed-payload signature ready.credentials ready.root_invocation passphrase signed h

  pub attached-Carries :
      (signature : ScVal) (ledger : ℕ) (credentials : Credentials) (invocation : Text)
      (ready signed : AuthEntry)
      → change_address xdr
          (λ (a : AddressCredentials). record a { signature_expiration_ledger = ledger })
          credentials
          invocation
        ≡ ok ready
      → change_address xdr
          (λ (a : AddressCredentials). record a { signature = signature })
          ready.credentials
          ready.root_invocation
        ≡ ok signed
      → Carries signature ledger signed
  unfolding change_address
  attached-Carries signature ledger source_account invocation ready signed h k = cc
  attached-Carries signature ledger (of_address address) invocation ready signed h k =
      let same : record {
        credentials = of_address (record address { signature_expiration_ledger = ledger });
        root_invocation = invocation;
      }
          ≡ ready =
        ok_injective _ ready h in
      let first = rw (← same) at k in
      (
        record address { signature_expiration_ledger = ledger; signature = signature },
        rw (← (ok_injective _ signed first)),
        refl,
        refl,
      )
