-- ===== src/Console/Passkey/Signer/Rules.antt =====
-- How a run of signer.ts is followed call by call: what holds at its end, for a result and for an
-- error.
use solva.Prelude.{◌≡◌, refl}
use solva.Prelude.Text.{Text}
use solva.Prelude.Effect.{Result, ok, err, Eff, and_then}
use solva.Console.Passkey.Signer.{outside, of_result}

abbrev pub Post :
    {A S : Type 0} → (A → S → Type 0) → (Text → S → Type 0) → Result Text A × S → Type 0
Post Q E (ok a, s) = Q a s
Post Q E (err e, s) = E e s

module _ {A B R W : Type 0} (Q : B → R × W → Type 0) (E : Text → R × W → Type 0)
    (f : A → Eff (R × W) Text B) (r : R) where
  outside_case :
      (x : Result Text A × W)
      → ((a : A) (v : W) → x ≡ (ok a, v) → Post Q E (f a (r, v)))
      → ((e : Text) (v : W) → x ≡ (err e, v) → E e (r, v))
      → Post Q E (and_then (x.0, (r, x.1)) f)
  outside_case (ok a, v) good bad = good a v refl
  outside_case (err e, v) good bad = bad e v refl

  pub outside_then :
      (m : Eff W Text A) (w : W)
      → ((a : A) (v : W) → m w ≡ (ok a, v) → Post Q E (f a (r, v)))
      → ((e : Text) (v : W) → m w ≡ (err e, v) → E e (r, v))
      → Post Q E (and_then (outside m (r, w)) f)
  unfolding outside
  outside_then m w good bad = outside_case (m w) good bad

  pub of_result_then :
      (x : Result Text A) (w : W)
      → ((a : A) → x ≡ ok a → Post Q E (f a (r, w)))
      → ((e : Text) → x ≡ err e → E e (r, w))
      → Post Q E (and_then (of_result x (r, w)) f)
  unfolding of_result
  of_result_then (ok a) w good bad = good a refl
  of_result_then (err e) w good bad = bad e refl

module _ {B R W : Type 0} (Q : B → R × W → Type 0) (E : Text → R × W → Type 0) (r : R) where
  last_case :
      (x : Result Text B × W)
      → ((b : B) (v : W) → x ≡ (ok b, v) → Q b (r, v))
      → ((e : Text) (v : W) → x ≡ (err e, v) → E e (r, v))
      → Post Q E (x.0, (r, x.1))
  last_case (ok b, v) good bad = good b v refl
  last_case (err e, v) good bad = bad e v refl

  pub outside_last :
      (m : Eff W Text B) (w : W)
      → ((b : B) (v : W) → m w ≡ (ok b, v) → Q b (r, v))
      → ((e : Text) (v : W) → m w ≡ (err e, v) → E e (r, v))
      → Post Q E (outside m (r, w))
  unfolding outside
  outside_last m w good bad = last_case (m w) good bad

pub Post-weaken :
    {A S : Type 0} (Q Q' : A → S → Type 0) (E : Text → S → Type 0) (x : Result Text A × S)
    → ((a : A) (s : S) → Q a s → Q' a s)
    → Post Q E x
    → Post Q' E x
Post-weaken Q Q' E (ok a, s) more h = more a s h
Post-weaken Q Q' E (err e, s) more h = h

-- An error says nothing of what was asked for.
abbrev pub Any : {S : Type 0} → Text → S → Type 0
Any e s = Unit {0}
