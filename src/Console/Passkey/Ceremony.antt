-- ===== src/Console/Passkey/Ceremony.antt =====
-- The passkey's ceremonies: apps/web/src/lib/passkey/webauthn.ts, and the base64url text of
-- bytes.ts. The browser's credentials, `btoa` and `atob`, the hash, and the reading of a signature
-- are parameters; the options carry what the code decides.
use solva.Prelude.{
  ℕ, ◌-◌, ◌%◌, Bool, List, [], ◌∷◌, ◌++◌, Option, none, some, ◌==◌, if◌then◌else◌, length,
  replicate,
}
use mathlib.Core.List.{reverse}
use solva.Prelude.Text.{Text, codes}
use solva.Prelude.Effect.{Result, err, Eff, ret, throw, ◌>>=◌}
use solva.Console.Passkey.PublicKey.{
  Bytes, public_key_from_spki, public_key_from_authenticator_data,
}

-- A text with each unit of one kind replaced.
unfoldable pub replace_unit : ℕ → ℕ → Text → Text
replace_unit old new [] = []
replace_unit old new (c ∷ s) = (if c == old then new else c) ∷ replace_unit old new s

unfoldable pub drop_padding : Text → Text
drop_padding [] = []
drop_padding (c ∷ s) = if c == b'=' then drop_padding s else c ∷ s

-- `toBase64Url`, with `btoa` on the bytes' characters.
unfoldable pub to_base64_url : (Bytes → Text) → Bytes → Text
unfolding replace_unit drop_padding
to_base64_url btoa bytes =
    let base64 = replace_unit b'/' b'_' (replace_unit b'+' b'-' (btoa bytes)) in
    reverse (drop_padding (reverse base64))

-- `fromBase64Url`; `atob` throws on what is no base64.
unfoldable pub from_base64_url : (Text → Result Text Bytes) → Text → Result Text Bytes
unfolding replace_unit
from_base64_url atob value =
    let base64 = replace_unit b'_' b'/' (replace_unit b'-' b'+' value) in
    let pad_length = (4 - length base64 % 4) % 4 in atob (base64 ++ replicate pad_length b'=')

pub record CreatePasskeyInput : Type 0 where
  pub rp_name : Text
  pub rp_id : Option Text
  pub user_id : Bytes
  pub user_name : Text
  pub display_name : Option Text
  pub timeout_ms : Option ℕ

pub record SignWithPasskeyInput : Type 0 where
  pub challenge : Bytes
  pub rp_id : Option Text
  pub allow_credentials : Option (List Bytes)
  pub timeout_ms : Option ℕ

pub record CreatePasskeyResult : Type 0 where
  pub credential_id : Bytes
  pub credential_id_base64_url : Text
  pub public_key : Bytes
  pub resident_key : Option Bool

pub record SignWithPasskeyResult : Type 0 where
  pub credential_id : Bytes
  pub credential_id_base64_url : Text
  pub authenticator_data : Bytes
  pub client_data_json : Bytes
  pub signature : Bytes
  pub signed_digest : Bytes

-- The options of a creation that vary with the input.
pub record CreationOptions : Type 0 where
  pub rp_id : Option Text
  pub rp_name : Text
  pub user_id : Bytes
  pub user_name : Text
  pub display_name : Text
  pub challenge : Bytes
  pub algorithms : List ℕ
  pub timeout : ℕ

pub record RequestOptions : Type 0 where
  pub challenge : Bytes
  pub rp_id : Option Text
  pub allow_credentials : List Bytes
  pub timeout : ℕ

-- A new credential. `get_authenticator_data` is none where there is no such function.
pub record NewCredential : Type 0 where
  pub raw_id : Bytes
  pub spki : Option Bytes
  pub get_authenticator_data : Option Bytes
  pub resident_key : Option Bool

pub record Assertion : Type 0 where
  pub raw_id : Bytes
  pub authenticator_data : Bytes
  pub client_data_json : Bytes
  pub signature : Bytes

pub record Authenticator (W : Type 0) : Type 0 where
  pub create : CreationOptions → Eff W Text (Option NewCredential)
  pub get : RequestOptions → Eff W Text (Option Assertion)
  pub btoa : Bytes → Text
  pub sha256 : Bytes → Bytes
  -- `p256.Point.fromHex`, and the compact low-S form of a DER signature, which throw.
  pub from_hex : Bytes → Result Text (Unit {0})
  pub normalize_s : Bytes → Result Text Bytes

-- `ES256`, -7, by its absolute value.
abbrev pub es256 : ℕ
es256 = 7

abbrev pub registration_challenge : Bytes
registration_challenge = codes "solva-passkey-registration"

abbrev pub timeout_or_default : Option ℕ → ℕ
timeout_or_default none = 60000
timeout_or_default (some timeout) = timeout

abbrev pub not_empty : Option Text → Option Text
not_empty none = none
not_empty (some []) = none
not_empty (some (c ∷ s)) = some (c ∷ s)

abbrev name_or : Option Text → Text → Text
name_or none name = name
name_or (some display_name) name = display_name

abbrev no_restriction : Option (List Bytes) → List Bytes
no_restriction none = []
no_restriction (some allowed) = allowed

unfoldable pub creation_options : CreatePasskeyInput → CreationOptions
creation_options input = record {
  rp_id = not_empty input.rp_id;
  rp_name = input.rp_name;
  user_id = input.user_id;
  user_name = input.user_name;
  display_name = name_or input.display_name input.user_name;
  challenge = registration_challenge;
  algorithms = es256 ∷ [];
  timeout = timeout_or_default input.timeout_ms;
}

-- No credential to allow is the empty list here.
unfoldable pub request_options : SignWithPasskeyInput → RequestOptions
request_options input = record {
  challenge = input.challenge;
  rp_id = not_empty input.rp_id;
  allow_credentials = no_restriction input.allow_credentials;
  timeout = timeout_or_default input.timeout_ms;
}

-- `webauthnSignedDigest`.
unfoldable pub webauthn_signed_digest : (Bytes → Bytes) → Bytes → Bytes → Bytes
webauthn_signed_digest sha256 authenticator_data client_data_json =
    sha256 (authenticator_data ++ sha256 client_data_json)

-- The key, from whichever shape is there.
unfoldable pub key_of :
    (Bytes → Result Text (Unit {0})) → Option Bytes → Option Bytes → Result Text Bytes
key_of from_hex (some spki) data_given = public_key_from_spki from_hex spki
key_of from_hex none (some authenticator_data) =
    public_key_from_authenticator_data from_hex authenticator_data
key_of from_hex none none =
    err (codes "credential exposed no public key; expected getPublicKey or getAuthenticatorData")

module _ {W : Type 0} (authenticator : Authenticator W) where
  of_result : {A : Type 0} → Result Text A → Eff W Text A
  of_result result w = (result, w)

  created_passkey : Option NewCredential → Eff W Text CreatePasskeyResult
  unfolding of_result key_of
  created_passkey none = throw (codes "passkey creation was cancelled or returned no credential")
  created_passkey (some credential) = do
    public_key ←
        of_result (key_of authenticator.from_hex credential.spki credential.get_authenticator_data)
    ret (record {
      credential_id = credential.raw_id;
      credential_id_base64_url = to_base64_url authenticator.btoa credential.raw_id;
      public_key = public_key;
      resident_key = credential.resident_key;
    })

  unfoldable pub create_passkey : CreatePasskeyInput → Eff W Text CreatePasskeyResult
  unfolding created_passkey
  create_passkey input = do
    credential ← authenticator.create (creation_options input)
    created_passkey credential

  signed_assertion : Option Assertion → Eff W Text SignWithPasskeyResult
  unfolding of_result
  signed_assertion none = throw (codes "passkey assertion was cancelled or returned no credential")
  signed_assertion (some credential) = do
    signature ← of_result (authenticator.normalize_s credential.signature)
    ret (record {
      credential_id = credential.raw_id;
      credential_id_base64_url = to_base64_url authenticator.btoa credential.raw_id;
      authenticator_data = credential.authenticator_data;
      client_data_json = credential.client_data_json;
      signature = signature;
      signed_digest =
          webauthn_signed_digest authenticator.sha256 credential.authenticator_data
            credential.client_data_json;
    })

  unfoldable pub sign_with_passkey : SignWithPasskeyInput → Eff W Text SignWithPasskeyResult
  unfolding signed_assertion
  sign_with_passkey input = do
    credential ← authenticator.get (request_options input)
    signed_assertion credential
