-- ===== src/Console/Auth/Examples.antt =====
-- A first sign-in and the next: apps/web/src/lib/auth.ts.
use solva.Prelude.{◌≡◌, refl, true, [], ◌∷◌, Option, none, some}
use solva.Prelude.Text.{codes}
use solva.Prelude.Effect.{ok}
use solva.Console.Passkey.Support.{Browser}
use solva.Console.Auth.{StoredWallet, Ceremony, Provider, tenant_or_default, sign_in}
use solva.Console.Auth.Possession.{SignedIn, sign_in-SignedIn}

abbrev browser : Browser
browser = record {
  has_window = true;
  is_secure_context = true;
  has_credentials = true;
  has_public_key_credential = true;
  probe = ok none;
}

-- The world is the stored wallet.
abbrev ceremony : Ceremony (Option StoredWallet)
ceremony = record {
  browser = λ w. browser;
  phase = λ phase w. w;
  load = λ key w. (ok w, w);
  save = λ key wallet w. (ok tt, some wallet);
  random = λ w. (1 ∷ [], w);
  sign = λ challenge credential_id w. (ok tt, w);
  create = λ id name w. (
    ok (record {
      credential_id = 7 ∷ [];
      credential_id_base64_url = codes "Bw";
      public_key = 4 ∷ [];
    }),
    w,
  );
  provision = λ credential_id public_key w.
      (ok (record { contract_address = codes "CABCDEFGHIJ"; deployed = true }), w);
  from_base64_url = λ name. ok (7 ∷ []);
}

abbrev signed_out : Provider (Option StoredWallet)
signed_out = record { session = none; world = none }

first-stored :
    (sign_in ceremony none signed_out).1.world
    ≡ some
        (record { credential_id_base64_url = codes "Bw"; contract_address = codes "CABCDEFGHIJ" })
unfolding sign_in solva.Console.Passkey.Support.detect_passkey_support
first-stored = refl

sign_in-SignedIn_example :
    SignedIn ceremony (tenant_or_default none) none (sign_in ceremony none signed_out)
sign_in-SignedIn_example = sign_in-SignedIn ceremony none signed_out
