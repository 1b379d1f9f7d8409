-- ===== src/Console/Passkey/Support.antt =====
-- Whether passkeys can be used: apps/web/src/lib/passkey/capabilities.ts.
use solva.Prelude.{Bool, true, false, not, ◌||◌, Option, none, some, if◌then◌else◌}
use solva.Prelude.Text.{Text, codes}
use solva.Prelude.Effect.{Result, ok, err}

pub record PasskeySupport : Type 0 where
  pub supported : Bool
  pub reason : Option Text

-- The answer of the platform's probe: none where there is no such function, or what it throws.
pub record Browser : Type 0 where
  pub has_window : Bool
  pub is_secure_context : Bool
  pub has_credentials : Bool
  pub has_public_key_credential : Bool
  pub probe : Result Text (Option Bool)

abbrev unsupported : Text → PasskeySupport
unsupported reason = record { supported = false; reason = some reason }

abbrev supported : PasskeySupport
supported = record { supported = true; reason = none }

probed : Result Text (Option Bool) → PasskeySupport
probed (ok (some false)) = unsupported (
    codes
      "No passkey authenticator (Face ID, Touch ID, or Windows Hello) is set up on this device.")
probed (ok (some true)) = supported
probed (ok none) = supported
probed (err thrown) = supported

unfoldable pub detect_passkey_support : Browser → PasskeySupport
unfolding probed
detect_passkey_support browser =
    if not browser.has_window
    then unsupported (codes "Passkeys are only available in the browser.")
    else (if not browser.is_secure_context
        then unsupported (codes "Passkeys require a secure (https) connection.")
        else (if not browser.has_credentials || not browser.has_public_key_credential
            then unsupported (codes "This browser does not support passkeys.")
            else probed browser.probe))
