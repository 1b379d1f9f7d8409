-- ===== src/Website/Amount/RoundTrip.antt =====
-- An amount that amount.ts prints is the amount that it reads back.
use native.Mathlib.Nat.{pow-suc, div-add-mod', mod-lt}
use solva.Prelude.{
  ℕ, zero, suc, ◌+◌, ◌-◌, ◌/◌, ◌%◌, ◌^◌, ◌<◌, ◌≤◌, ◌≡◌, ◌≢◌, refl, ap, ◌∙◌, true, List, [], ◌∷◌,
  ◌++◌, none, some, ltb, Bool-cases, inl, inr, arith, length, length-append, take, replicate,
  length-replicate, All-append,
}
use solva.Prelude.Int.{pos}
use solva.Prelude.Text.{Text, keep, digits, print_nat, value_from, value}
use solva.Prelude.BigInt.RoundTrip.{
  IsDigits, print_nat-IsDigits, value-print_nat, print_nat-ne-nil, all_of-IsDigits,
}
use solva.Website.Amount.{
  group_after, group_digits, pad_start, format_nat, format_amount, is_kept, before_point,
  after_point, is_amount, read_parts, parse_cleaned, parse_amount,
}

-- The commas that are put in are taken out again.
keep-group_after : (prev : ℕ) (s : Text) → IsDigits s → keep is_kept (group_after prev s) ≡ s
unfolding keep group_after
keep-group_after prev [] h = refl
keep-group_after prev (c ∷ s) h = ground (arith, keep-group_after c s h.1)

keep-group_digits : (s : Text) → IsDigits s → keep is_kept (group_digits s) ≡ s
unfolding keep group_digits
keep-group_digits [] h = refl
keep-group_digits (c ∷ s) h = ground (arith, keep-group_after c s h.1)

keep-IsDigits : (s : Text) → IsDigits s → keep is_kept s ≡ s
unfolding keep
keep-IsDigits [] h = refl
keep-IsDigits (c ∷ s) h = ground (arith, keep-IsDigits s h.1)

keep-append : (s t : Text) → keep is_kept (s ++ t) ≡ keep is_kept s ++ keep is_kept t
unfolding keep
keep-append [] t = refl
keep-append (c ∷ s) t = ground (arith, keep-append s t)

-- A text of digits, alone and before a point.
before_point-IsDigits : (s : Text) → IsDigits s → before_point s ≡ s
unfolding before_point
before_point-IsDigits [] h = refl
before_point-IsDigits (c ∷ s) h = ground (arith, before_point-IsDigits s h.1)

after_point-IsDigits : (s : Text) → IsDigits s → after_point s ≡ none
unfolding after_point
after_point-IsDigits [] h = refl
after_point-IsDigits (c ∷ s) h = ground (arith, after_point-IsDigits s h.1)

before_point-append : (s t : Text) → IsDigits s → before_point (s ++ b'.' ∷ t) ≡ s
unfolding before_point
before_point-append [] t h = refl
before_point-append (c ∷ s) t h = ground (arith, before_point-append s t h.1)

after_point-append : (s t : Text) → IsDigits s → after_point (s ++ b'.' ∷ t) ≡ some t
unfolding after_point
after_point-append [] t h = refl
after_point-append (c ∷ s) t h = ground (arith, after_point-append s t h.1)

-- Zeros in front.
value_from-zeros : (k : ℕ) (s : Text) → value_from 0 (replicate k b'0' ++ s) ≡ value_from 0 s
unfolding value_from
value_from-zeros zero s = refl
value_from-zeros (suc k) s = value_from-zeros k s

zeros-IsDigits : (k : ℕ) → IsDigits (replicate k b'0')
zeros-IsDigits zero = tt
zeros-IsDigits (suc k) = (refl, zeros-IsDigits k)

length-pad_start : (width : ℕ) (s : Text) → length s ≤ width → length (pad_start width s) ≡ width
length-pad_start width s h = omega (
  arith,
  length-append (replicate (width - length s) b'0') s,
  length-replicate {A = ℕ} (width - length s) b'0',
)

pad_start-IsDigits : (width : ℕ) (s : Text) → IsDigits s → IsDigits (pad_start width s)
pad_start-IsDigits width s h =
    All-append _ (replicate (width - length s) b'0') s (zeros-IsDigits (width - length s)) h

-- A number below 10 ^ d has at most d digits.
length-digits : (d fuel n : ℕ) → n < 10 ^ suc d → length (digits fuel n) ≤ suc d
unfolding digits
length-digits d zero n h = omega arith
length-digits zero (suc fuel) n h = elim (Bool-cases (ltb n 10)) [
  | inl small ↦ rw small (omega arith)
  | inr large ↦ absurd (ground arith)
]
length-digits (suc d) (suc fuel) n h = elim (Bool-cases (ltb n 10)) [
  | inl small ↦ rw small (omega arith)
  | inr large ↦ rw large (
      omega (
        arith,
        length-append (digits fuel (n / 10)) ((b'0' + n % 10) ∷ []),
        length-digits d fuel (n / 10) (omega (arith, pow-suc 10 (suc d))),
      ))
]

take-append {ℓ} : {A : Type ℓ} (s t : List A) → take (length s) (s ++ t) ≡ s
take-append [] t = refl
take-append (x ∷ s) t = ap (◌∷◌ x) (take-append s t)

-- The fraction of a number below 10 ^ d, padded to d digits.
abbrev padded : ℕ → ℕ → Text
padded decimals m = pad_start decimals (print_nat m)

length-padded : (d m : ℕ) → m < 10 ^ suc d → length (padded (suc d) m) ≡ suc d
length-padded d m h = length-pad_start (suc d) (print_nat m) (length-print_nat d m h)
  where
    length-print_nat : (e k : ℕ) → k < 10 ^ suc e → length (print_nat k) ≤ suc e
    length-print_nat e k l = unfold print_nat in length-digits e (suc k) k l

value-padded : (d m : ℕ) → value (padded d m) ≡ m
unfolding value
value-padded d m = value_from-zeros (d - length (print_nat m)) (print_nat m) ∙ value-print_nat m

value-print : (n : ℕ) → value (print_nat n) ≡ n
unfolding value
value-print n = value-print_nat n

pow_pos : (d : ℕ) → 0 < 10 ^ d
pow_pos zero = omega arith
pow_pos (suc d) = omega (arith, pow-suc 10 d, pow_pos d)

take-at {ℓ} : {A : Type ℓ} (k : ℕ) (s t : List A) → length s ≡ k → take k (s ++ t) ≡ s
take-at k s t h = rw (← h) (take-append s t)

-- What is read of a printed whole part and a padded fraction.
read_parts-padded :
    (n d : ℕ)
    → read_parts (print_nat (n / 10 ^ suc d)) (padded (suc d) (n % 10 ^ suc d)) (suc d) ≡ n
unfolding read_parts
read_parts-padded n d =
    let m = n % 10 ^ suc d in
    rw
      (
        take-at (suc d) (padded (suc d) m) (replicate (suc d) b'0')
            (length-padded d m (mod-lt n (pow_pos (suc d)))),
        value-padded (suc d) m,
        value-print (n / 10 ^ suc d),
      )
      (div-add-mod' n (10 ^ suc d))

is_amount-append :
    (whole fraction : Text)
    → whole ≢ []
    → IsDigits whole
    → IsDigits fraction
    → is_amount (whole ++ b'.' ∷ fraction) ≡ true
unfolding is_amount
is_amount-append [] fraction h d e = absurd (h refl)
is_amount-append (c ∷ whole) fraction h d e =
    rw
      (
        before_point-append (c ∷ whole) fraction d,
        after_point-append (c ∷ whole) fraction d,
        all_of-IsDigits (c ∷ whole) d,
        all_of-IsDigits fraction e,
      )
      (ground arith)

is_amount-IsDigits : (whole : Text) → whole ≢ [] → IsDigits whole → is_amount whole ≡ true
unfolding is_amount
is_amount-IsDigits [] h d = absurd (h refl)
is_amount-IsDigits (c ∷ whole) h d =
    rw
      (
        before_point-IsDigits (c ∷ whole) d,
        after_point-IsDigits (c ∷ whole) d,
        all_of-IsDigits (c ∷ whole) d,
      )
      (ground arith)

keep-point : (s : Text) → keep is_kept (b'.' ∷ s) ≡ b'.' ∷ keep is_kept s
unfolding keep
keep-point s = refl

format_nat-suc :
    (n d : ℕ)
    → format_nat n (suc d)
      ≡ group_digits (print_nat (n / 10 ^ suc d)) ++ b'.' ∷ padded (suc d) (n % 10 ^ suc d)
unfolding format_nat
format_nat-suc n d = ground arith

keep-format_nat :
    (n d : ℕ)
    → keep is_kept (format_nat n (suc d))
      ≡ print_nat (n / 10 ^ suc d) ++ b'.' ∷ padded (suc d) (n % 10 ^ suc d)
keep-format_nat n d = rw (
  format_nat-suc n d,
  keep-append (group_digits (print_nat (n / 10 ^ suc d))) (b'.' ∷ padded (suc d) (n % 10 ^ suc d)),
  keep-group_digits (print_nat (n / 10 ^ suc d)) (print_nat-IsDigits _),
  keep-point,
  keep-IsDigits (padded (suc d) (n % 10 ^ suc d))
      (pad_start-IsDigits (suc d) (print_nat (n % 10 ^ suc d)) (print_nat-IsDigits _)),
)

parse_cleaned-point :
    (n d : ℕ)
    → parse_cleaned (print_nat (n / 10 ^ suc d) ++ b'.' ∷ padded (suc d) (n % 10 ^ suc d)) (suc d)
      ≡ some n
unfolding parse_cleaned
parse_cleaned-point n d =
    let whole = print_nat (n / 10 ^ suc d) in
    let fraction = padded (suc d) (n % 10 ^ suc d) in
    let wd : IsDigits whole = print_nat-IsDigits (n / 10 ^ suc d) in
    rw
      (
        is_amount-append whole fraction (print_nat-ne-nil _) wd
            (pad_start-IsDigits (suc d) _ (print_nat-IsDigits _)),
        before_point-append whole fraction wd,
        after_point-append whole fraction wd,
      )
      (ap some (read_parts-padded n d))

value-nil : value [] ≡ 0
unfolding value
value-nil = refl

read_parts-whole : (n : ℕ) → read_parts (print_nat (n / 10 ^ 0)) [] 0 ≡ n
unfolding read_parts
read_parts-whole n = rw (value-print (n / 1)) (omega (arith, value-nil))

parse_cleaned-whole : (n : ℕ) → parse_cleaned (print_nat (n / 10 ^ 0)) 0 ≡ some n
unfolding parse_cleaned
parse_cleaned-whole n =
    let wd : IsDigits (print_nat (n / 1)) = print_nat-IsDigits (n / 1) in
    rw
      (
        is_amount-IsDigits _ (print_nat-ne-nil (n / 1)) wd,
        before_point-IsDigits _ wd,
        after_point-IsDigits _ wd,
      )
      (ap some (read_parts-whole n))

-- An amount that is not negative, printed with any number of decimals, is read back as it was.
pub parse_amount-format_amount :
    (n decimals : ℕ) → parse_amount (format_amount (pos n) decimals) decimals ≡ some n
unfolding parse_amount format_amount
parse_amount-format_amount n (suc d) = rw (keep-format_nat n d) (parse_cleaned-point n d)
parse_amount-format_amount n zero =
    rw (keep-group_digits (print_nat (n / 1)) (print_nat-IsDigits _)) (parse_cleaned-whole n)
