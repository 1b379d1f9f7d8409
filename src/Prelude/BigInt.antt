-- ===== src/Prelude/BigInt.antt =====
-- `BigInt(text)` and `toString`: JavaScript's integers of any size, as ℤ.
pub mod RoundTrip
use solva.Prelude.Tests.{leb, ltb, ◌==◌, if◌then◌else◌, Bool-cases}
use Prim.Native.Nat.{ℕ, zero, suc, ◌+◌, ◌-◌, ◌*◌, ◌/◌, ◌%◌, ◌≤◌, ◌<◌}
use mathlib.Core.Path.{◌≡◌, refl, sym, ap, ◌∙◌}
use mathlib.Core.Logic.{◌↔◌, ◌⊎◌, inl, inr}
use mathlib.Core.Bool.{Bool, true, false, ◌&&◌, ◌||◌}
use mathlib.Core.Option.{Option, none, some}
use mathlib.Core.List.{List, [], ◌∷◌, ◌++◌}
use native.Mathlib.Omega.{arith}
use solva.Prelude.Int.{ℤ, pos, negsuc, sub_ℕ}
use solva.Prelude.Text.{
  Text, codes, is_digit, is_space, trim_start, trim, all_of, digits, print_nat, value_from, value,
}

-- Digits of another base: `0x`, `0o` and `0b` literals, in either case.
digit_of : ℕ → ℕ
digit_of c =
    if is_digit c
    then c - b'0'
    else if leb b'a' c && leb c b'f'
    then c - b'a' + 10
    else if leb b'A' c && leb c b'F'
    then c - b'A' + 10
    else 99

-- No digit at all, or a digit that the base lacks, is refused.
radix_from : ℕ → ℕ → Text → Option ℤ
radix_from base acc [] = some (pos acc)
radix_from base acc (c ∷ s) =
    if ltb (digit_of c) base then radix_from base (acc * base + digit_of c) s else none

radix : ℕ → Text → Option ℤ
unfolding radix_from digit_of
radix base [] = none
radix base (c ∷ s) = radix_from base 0 (c ∷ s)

decimal : Text → Option ℕ
decimal [] = none
decimal (c ∷ s) = if all_of is_digit (c ∷ s) then some (value (c ∷ s)) else none

positive : Option ℕ → Option ℤ
positive none = none
positive (some n) = some (pos n)

negative : Option ℕ → Option ℤ
negative none = none
negative (some n) = some (sub_ℕ 0 n)

zero_prefixed : Text → Option ℤ
unfolding radix decimal positive
zero_prefixed [] = some (pos 0)
zero_prefixed (c ∷ s) =
    if c == b'x' || c == b'X'
    then radix 16 s
    else if c == b'o' || c == b'O'
    then radix 8 s
    else if c == b'b' || c == b'B'
    then radix 2 s
    else positive (decimal (b'0' ∷ c ∷ s))

literal : Text → Option ℤ
unfolding zero_prefixed negative positive decimal
literal [] = some (pos 0)
literal (c ∷ s) =
    if c == b'-'
    then negative (decimal s)
    else if c == b'+'
    then positive (decimal s)
    else if c == b'0'
    then zero_prefixed s
    else positive (decimal (c ∷ s))

-- `BigInt(text)`; `none` is the SyntaxError that it throws.
unfoldable pub parse_bigint : Text → Option ℤ
unfolding literal trim all_of value
parse_bigint s = literal (trim s)

unfoldable pub print_bigint : ℤ → Text
unfolding print_nat
print_bigint (pos n) = print_nat n
print_bigint (negsuc n) = b'-' ∷ print_nat (suc n)

parse_tests :
    (parse_bigint (codes " 16000000\n") ≡ some (pos 16000000))
    × (parse_bigint (codes "-12") ≡ some (negsuc 11))
    × (parse_bigint [] ≡ some (pos 0))
    × (parse_bigint (codes "0x1F") ≡ some (pos 31))
    × (parse_bigint (codes "1.5") ≡ none)
    × (parse_bigint (codes "-") ≡ none)
    × (parse_bigint (codes "007") ≡ some (pos 7))
unfolding parse_bigint
parse_tests = (refl, refl, refl, refl, refl, refl, refl)

print_tests : print_bigint (pos 24311840000) ≡ codes "24311840000"
unfolding print_bigint
print_tests = refl
