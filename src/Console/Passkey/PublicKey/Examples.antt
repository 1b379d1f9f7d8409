-- ===== src/Console/Passkey/PublicKey/Examples.antt =====
-- A key of a passkey at concrete bytes: apps/web/src/lib/passkey/public-key.ts.
use solva.Prelude.{◌≡◌, refl, List, [], ◌∷◌, ◌++◌, replicate}
use solva.Prelude.Text.{Text, codes}
use solva.Prelude.Effect.{Result, ok, err}
use solva.Console.Passkey.PublicKey.{
  Bytes, ◌!>◌, public_key_from_spki, public_key_from_authenticator_data,
}
use solva.Console.Passkey.PublicKey.Shapes.{registration, public_key-agrees}

abbrev x : Bytes
x = replicate 32 7

abbrev y : Bytes
y = replicate 32 9

abbrev on_curve : Bytes → Result Text (Unit {0})
on_curve point = ok tt

spki-short :
    public_key_from_spki on_curve (4 ∷ [])
    ≡ err (codes "unexpected SPKI length: got 1, expected 91")
unfolding public_key_from_spki solva.Prelude.Text.print_nat
spki-short = refl

public_key-agrees_example :
    (public_key_from_authenticator_data on_curve
        (registration (replicate 32 1) 0x45 (replicate 20 0) 0 2 (5 ∷ 6 ∷ []) x y)
      ≡ public_key_from_spki on_curve (replicate 26 0 ++ 4 ∷ (x ++ y)))
    × (public_key_from_spki on_curve (replicate 26 0 ++ 4 ∷ (x ++ y))
        ≡ (on_curve (4 ∷ (x ++ y)) !> (λ passed. ok (4 ∷ (x ++ y)))))
public_key-agrees_example =
    public_key-agrees on_curve (replicate 32 1) 0x45 (replicate 20 0) 0 2 (5 ∷ 6 ∷ [])
      (replicate 26 0) x y refl refl refl refl refl refl refl
