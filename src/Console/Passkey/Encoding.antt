-- ===== src/Console/Passkey/Encoding.antt =====
-- The values that the wallet's contract reads, and what is signed of an authorization entry:
-- encoder.ts, challenge.ts and wallet-state.ts of apps/web/src/lib/passkey. `hash` and the XDR
-- bytes of a preimage are parameters; so is the message of the library where an entry has no
-- address.
pub mod Signed
use solva.Prelude.{ℕ, Bool, true, false, List, [], ◌∷◌}
use solva.Prelude.Text.{Text, codes}
use solva.Prelude.Effect.{Result, ok, err, Eff, ret, ◌>>=◌}
use solva.Console.Passkey.PublicKey.{Bytes}

mutual
  pub data ScVal : Type 0 where
    void : ScVal
    symbol : (name : Text) → ScVal
    bytes : (content : Bytes) → ScVal
    contract_instance : ScVal
    vec : (values : ScVals) → ScVal
    dictionary : (entries : ScEntries) → ScVal

  pub data ScVals : Type 0 where
    nil : ScVals
    cons : ScVal → ScVals → ScVals

  pub data ScEntries : Type 0 where
    end : ScEntries
    entry : (key val : ScVal) → ScEntries → ScEntries

abbrev pair : ScVal → ScVal → ScVal
pair a b = vec (cons a (cons b nil))

pub record WebAuthnSignatureParts : Type 0 where
  pub credential_id : Bytes
  pub authenticator_data : Bytes
  pub client_data_json : Bytes
  pub signature : Bytes

unfoldable pub passkey_kit_signature : WebAuthnSignatureParts → ScVal
passkey_kit_signature parts =
    let signer_key = pair (symbol (codes "Secp256r1")) (bytes parts.credential_id) in
    let signature_struct = dictionary (
      entry (symbol (codes "authenticator_data")) (bytes parts.authenticator_data) (
        entry (symbol (codes "client_data_json")) (bytes parts.client_data_json)
          (entry (symbol (codes "signature")) (bytes parts.signature) end))) in
    let signature = pair (symbol (codes "Secp256r1")) signature_struct in
    vec (cons (dictionary (entry signer_key signature end)) nil)

pub record AddressCredentials : Type 0 where
  pub address : Text
  pub nonce : Text
  pub signature_expiration_ledger : ℕ
  pub signature : ScVal

pub data Credentials : Type 0 where
  source_account : Credentials
  of_address : AddressCredentials → Credentials

pub record AuthEntry : Type 0 where
  pub credentials : Credentials
  pub root_invocation : Text

-- The preimage of an authorization, but for its kind.
pub record AuthorizationPreimage : Type 0 where
  pub network_id : Bytes
  pub nonce : Text
  pub signature_expiration_ledger : ℕ
  pub invocation : Text

-- What the network's library gives for these.
pub record Xdr : Type 0 where
  pub hash : Bytes → Bytes
  pub utf8 : Text → Bytes
  pub to_xdr : AuthorizationPreimage → Bytes
  pub no_address : Text

module _ (xdr : Xdr) where
  unfoldable pub authorization_payload : Text → Text → ℕ → Text → Bytes
  authorization_payload network_passphrase nonce signature_expiration_ledger invocation = xdr.hash (
      xdr.to_xdr (record {
        network_id = xdr.hash (xdr.utf8 network_passphrase);
        nonce = nonce;
        signature_expiration_ledger = signature_expiration_ledger;
        invocation = invocation;
      }))

  unfoldable pub payload_of : Credentials → Text → Text → Result Text Bytes
  unfolding authorization_payload
  payload_of source_account invocation network_passphrase =
      err (codes "authorization entry does not use address credentials")
  payload_of (of_address address) invocation network_passphrase = ok (
      authorization_payload network_passphrase address.nonce address.signature_expiration_ledger
        invocation)

  unfoldable pub payload_for_auth_entry : AuthEntry → Text → Result Text Bytes
  unfolding payload_of
  payload_for_auth_entry auth network_passphrase =
      payload_of auth.credentials auth.root_invocation network_passphrase

  -- A write through `entry.credentials().address()`.
  unfoldable pub change_address :
      (AddressCredentials → AddressCredentials) → Credentials → Text → Result Text AuthEntry
  change_address change source_account invocation = err xdr.no_address
  change_address change (of_address address) invocation =
      ok (record { credentials = of_address (change address); root_invocation = invocation })

  unfoldable pub attach_signature_to_entry : ScVal → AuthEntry → Result Text AuthEntry
  unfolding change_address
  attach_signature_to_entry signature auth =
      change_address (λ (a : AddressCredentials). record a { signature = signature })
        auth.credentials auth.root_invocation

  unfoldable pub set_expiration : ℕ → AuthEntry → Result Text AuthEntry
  unfolding change_address
  set_expiration ledger auth =
      change_address (λ (a : AddressCredentials). record a { signature_expiration_ledger = ledger })
        auth.credentials auth.root_invocation

-- The key of a persistent entry of a contract's data.
pub record LedgerKey : Type 0 where
  pub contract : Text
  pub key : ScVal

unfoldable pub secp256r1_signer_ledger_key : Text → Bytes → LedgerKey
secp256r1_signer_ledger_key wallet_address credential_id = record {
  contract = wallet_address;
  key = pair (symbol (codes "Secp256r1")) (bytes credential_id);
}

unfoldable pub contract_instance_ledger_key : Text → LedgerKey
contract_instance_ledger_key wallet_address = record {
  contract = wallet_address;
  key = contract_instance;
}

abbrev some_entries : List LedgerKey → Bool
some_entries [] = false
some_entries (key ∷ keys) = true

-- The reader over `getLedgerEntries`, which answers with the keys of the entries found.
module _ {W : Type 0} (get_ledger_entries : List LedgerKey → Eff W Text (List LedgerKey)) where
  unfoldable pub contract_exists : Text → Eff W Text Bool
  unfolding contract_instance_ledger_key
  contract_exists wallet_address = do
    entries ← get_ledger_entries (contract_instance_ledger_key wallet_address ∷ [])
    ret (some_entries entries)

  unfoldable pub has_secp256r1_signer : Text → Bytes → Eff W Text Bool
  unfolding secp256r1_signer_ledger_key
  has_secp256r1_signer wallet_address credential_id = do
    entries ← get_ledger_entries (secp256r1_signer_ledger_key wallet_address credential_id ∷ [])
    ret (some_entries entries)
