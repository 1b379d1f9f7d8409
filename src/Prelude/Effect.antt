-- ===== src/Prelude/Effect.antt =====
-- Code that awaits calls to the world outside and may throw: a state of the world of type `W` is
-- passed from call to call, and a thrown value of type `E` ends the run.
use mathlib.Core.Path.{◌≡◌, refl}

pub data Result {ℓ κ} (E : Type ℓ) (A : Type κ) : Type (ℓ ⊔ κ) where
  ok : A → Result E A
  err : E → Result E A

abbrev pub Eff {ℓ κ ι} : Type ℓ → Type κ → Type ι → Type (ℓ ⊔ κ ⊔ ι)
Eff W E A = W → Result E A × W

abbrev pub ret {ℓ κ ι} : {W : Type ℓ} {E : Type κ} {A : Type ι} → A → Eff W E A
ret a w = (ok a, w)

abbrev pub throw {ℓ κ ι} : {W : Type ℓ} {E : Type κ} {A : Type ι} → E → Eff W E A
throw e w = (err e, w)

abbrev pub and_then {ℓ κ ι μ} :
    {W : Type ℓ} {E : Type κ} {A : Type ι} {B : Type μ}
    → Result E A × W
    → (A → Eff W E B)
    → Result E B × W
and_then (ok a, w) f = f a w
and_then (err e, w) f = (err e, w)

infixl 5 ◌>>=◌ ◌>>◌
abbrev pub ◌>>=◌ {ℓ κ ι μ} :
    {W : Type ℓ} {E : Type κ} {A : Type ι} {B : Type μ} → Eff W E A → (A → Eff W E B) → Eff W E B
◌>>=◌ m f w = and_then (m w) f

abbrev pub ◌>>◌ {ℓ κ ι μ} :
    {W : Type ℓ} {E : Type κ} {A : Type ι} {B : Type μ} → Eff W E A → Eff W E B → Eff W E B
◌>>◌ m k w = and_then (m w) (λ _. k)

-- `try { … } catch (cause) { … }`.
abbrev pub or_else {ℓ κ ι μ} :
    {W : Type ℓ} {E : Type κ} {F : Type μ} {A : Type ι}
    → Result E A × W
    → (E → Eff W F A)
    → Result F A × W
or_else (ok a, w) handler = (ok a, w)
or_else (err e, w) handler = handler e w

abbrev pub catching {ℓ κ ι μ} :
    {W : Type ℓ} {E : Type κ} {F : Type μ} {A : Type ι} → Eff W E A → (E → Eff W F A) → Eff W F A
catching m handler w = or_else (m w) handler

-- Inversion of a run that ends well.
pub and_then-eq-ok {ℓ κ ι μ} :
    {W : Type ℓ} {E : Type κ} {A : Type ι} {B : Type μ} (x : Result E A × W) (f : A → Eff W E B)
    (b : B) (v : W)
    → and_then x f ≡ (ok b, v)
    → (a : A) × (u : W) × (x ≡ (ok a, u)) × (f a u ≡ (ok b, v))
and_then-eq-ok (ok a, u) f b v h = (a, u, refl, h)
and_then-eq-ok (err e, u) f b v h = cc
