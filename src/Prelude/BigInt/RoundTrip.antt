-- ===== src/Prelude/BigInt/RoundTrip.antt =====
-- A BigInt printed by `toString` is read back by `BigInt`.
use solva.Prelude.Tests.{ltb, ◌==◌, if◌then◌else◌, Bool-cases}
use Prim.Native.Nat.{ℕ, zero, suc, ◌+◌, ◌-◌, ◌*◌, ◌/◌, ◌<◌}
use mathlib.Core.Path.{◌≡◌, refl, ap, ◌∙◌}
use mathlib.Core.Logic.{◌≢◌, inl, inr}
use mathlib.Core.Bool.{true, false}
use mathlib.Core.Option.{some}
use mathlib.Core.List.{[], ◌∷◌, ◌++◌, reverse, reverse-reverse, reverse-cons, concat-ne-nil}
use native.Mathlib.Omega.{arith}
use solva.Prelude.Int.{ℤ, pos, negsuc}
use solva.Prelude.Lists.{All, All-append}
use solva.Prelude.Text.{
  Text, is_digit, is_space, trim_start, trim, all_of, digits, print_nat, value_from, value,
}
use solva.Prelude.BigInt.{
  decimal, positive, negative, zero_prefixed, literal, parse_bigint, print_bigint,
}

abbrev pub IsDigits : Text → Type 0
IsDigits = All (λ c. is_digit c ≡ true)

pub digits-IsDigits : (fuel n : ℕ) → IsDigits (digits fuel n)
unfolding digits
digits-IsDigits zero n = tt
digits-IsDigits (suc fuel) n = elim (Bool-cases (ltb n 10)) [
  | inl small ↦ rw small (ground arith, tt)
  | inr large ↦
      rw large
        (All-append _ (digits fuel (n / 10)) _ (digits-IsDigits fuel (n / 10)) (ground arith, tt))
]

pub value_from-append :
    (acc c : ℕ) (s : Text) → value_from acc (s ++ c ∷ []) ≡ value_from acc s * 10 + (c - b'0')
unfolding value_from
value_from-append acc c [] = refl
value_from-append acc c (d ∷ s) = value_from-append (acc * 10 + (d - b'0')) c s

pub value-digits : (fuel n : ℕ) → n < fuel → value_from 0 (digits fuel n) ≡ n
unfolding digits value_from
value-digits zero n h = elim h [ ]
value-digits (suc fuel) n h = elim (Bool-cases (ltb n 10)) [
  | inl small ↦ rw small (omega arith)
  | inr large ↦
      rw (large, value_from-append, value-digits fuel (n / 10) (ground arith)) (omega arith)
]

pub all_of-IsDigits : (s : Text) → IsDigits s → all_of is_digit s ≡ true
unfolding all_of
all_of-IsDigits [] h = refl
all_of-IsDigits (c ∷ s) h = ground (arith, all_of-IsDigits s h.1)

digits-ne-nil : (fuel n : ℕ) → digits (suc fuel) n ≢ []
unfolding digits
digits-ne-nil fuel n = elim (Bool-cases (ltb n 10)) [
  | inl small ↦ rw small (λ e. cc)
  | inr large ↦ rw large (concat-ne-nil _ (digits fuel (n / 10)))
]

decimal-IsDigits : (s : Text) → s ≢ [] → IsDigits s → decimal s ≡ some (value_from 0 s)
unfolding decimal value
decimal-IsDigits [] h d = absurd (h refl)
decimal-IsDigits (c ∷ s) h d = rw (all_of-IsDigits (c ∷ s) d)

zero_prefixed-IsDigits : (s : Text) → IsDigits s → zero_prefixed s ≡ positive (decimal (b'0' ∷ s))
unfolding zero_prefixed all_of value
zero_prefixed-IsDigits [] d = refl
zero_prefixed-IsDigits (c ∷ s) d = ground arith

literal-cons :
    (c : ℕ) (s : Text)
    → is_digit c ≡ true
    → literal (c ∷ s) ≡ (if c == b'0' then zero_prefixed s else positive (decimal (c ∷ s)))
unfolding literal
literal-cons c s h = ground arith

positive-decimal :
    (s : Text) → s ≢ [] → IsDigits s → positive (decimal s) ≡ some (pos (value_from 0 s))
unfolding positive
positive-decimal s h d = rw (decimal-IsDigits s h d)

literal-IsDigits : (s : Text) → s ≢ [] → IsDigits s → literal s ≡ some (pos (value_from 0 s))
literal-IsDigits [] h d = absurd (h refl)
literal-IsDigits (c ∷ s) h d = elim (Bool-cases (c == b'0')) [
  | inl led ↦
      let same : c ≡ b'0' = ground arith in
      rw (literal-cons c s d.0, led, zero_prefixed-IsDigits s d.1, ← same)
        (positive-decimal (c ∷ s) h d)
  | inr other ↦ rw (literal-cons c s d.0, other) (positive-decimal (c ∷ s) h d)
]

-- A text that neither begins nor ends with a space is its own trim.
IsSolid : Text → Type 0
IsSolid = All (λ c. is_space c ≡ false)

trim_start-IsSolid : (s : Text) → IsSolid s → trim_start s ≡ s
unfolding trim_start IsSolid
trim_start-IsSolid [] h = refl
trim_start-IsSolid (c ∷ s) h = rw h.0

reverse-IsSolid : (s : Text) → IsSolid s → IsSolid (reverse s)
unfolding IsSolid
reverse-IsSolid [] h = tt
reverse-IsSolid (c ∷ s) h =
    rw reverse-cons (All-append _ (reverse s) _ (reverse-IsSolid s h.1) (h.0, tt))

trim-IsSolid : (s : Text) → IsSolid s → trim s ≡ s
unfolding trim
trim-IsSolid s h =
    rw (trim_start-IsSolid s h, trim_start-IsSolid (reverse s) (reverse-IsSolid s h))
      (reverse-reverse s)

IsDigits-IsSolid : (s : Text) → IsDigits s → IsSolid s
unfolding IsSolid
IsDigits-IsSolid [] h = tt
IsDigits-IsSolid (c ∷ s) h = (ground arith, IsDigits-IsSolid s h.1)

pub print_nat-IsDigits : (n : ℕ) → IsDigits (print_nat n)
unfolding print_nat
print_nat-IsDigits n = digits-IsDigits (suc n) n

pub value-print_nat : (n : ℕ) → value_from 0 (print_nat n) ≡ n
unfolding print_nat
value-print_nat n = value-digits (suc n) n (omega arith)

pub print_nat-ne-nil : (n : ℕ) → print_nat n ≢ []
unfolding print_nat
print_nat-ne-nil n = digits-ne-nil n n

literal-minus : (s : Text) → literal (b'-' ∷ s) ≡ negative (decimal s)
unfolding literal
literal-minus s = refl

negative-suc : (n : ℕ) → negative (some (suc n)) ≡ some (negsuc n)
unfolding negative
negative-suc n = ground arith

-- What `toString` prints, `BigInt` reads back.
pub parse_bigint-print_bigint : (z : ℤ) → parse_bigint (print_bigint z) ≡ some z
unfolding print_bigint parse_bigint IsSolid
parse_bigint-print_bigint (pos n) = rw (
  trim-IsSolid (print_nat n) (IsDigits-IsSolid _ (print_nat-IsDigits n)),
  literal-IsDigits (print_nat n) (print_nat-ne-nil n) (print_nat-IsDigits n),
  value-print_nat n,
)
parse_bigint-print_bigint (negsuc n) =
    rw
      (trim-IsSolid (b'-' ∷ print_nat (suc n))
        (refl, IsDigits-IsSolid _ (print_nat-IsDigits (suc n))))
      (literal-minus (print_nat (suc n))
        ∙ (ap negative (decimal-IsDigits _ (print_nat-ne-nil (suc n)) (print_nat-IsDigits (suc n)))
            ∙ (ap (λ m. negative (some m)) (value-print_nat (suc n)) ∙ negative-suc n)))
