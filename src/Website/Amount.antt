-- ===== src/Website/Amount.antt =====
-- apps/website/src/lib/amount.ts and coverage.ts: amounts in base units, printed, read, and
-- compared. A `bigint` is a ℤ and `decimals` a natural number.
pub mod RoundTrip
pub mod Coverage
mod Examples
use solva.Prelude.{
  ℕ, zero, suc, ◌+◌, ◌-◌, ◌*◌, ◌/◌, ◌%◌, ◌^◌, ◌≡◌, refl, Bool, true, false, not, ◌&&◌, ◌||◌, List,
  [], ◌∷◌, ◌++◌, Option, none, some, leb, ltb, ◌==◌, if◌then◌else◌, length, take, replicate,
}
use solva.Prelude.Int.{ℤ, pos, negsuc, sub_ℕ, ◌-ℤ◌, ◌*ℤ◌, leb_ℤ, quot}
use solva.Prelude.Text.{Text, codes, is_digit, is_space, keep, all_of, print_nat, value}
use solva.Prelude.BigInt.{print_bigint}

-- `\w`.
abbrev is_word : ℕ → Bool
is_word c = is_digit c || (leb b'a' c && leb c b'z') || (leb b'A' c && leb c b'Z') || c == b'_'

-- How many digits stand at the front.
pub digit_run : Text → ℕ
digit_run [] = 0
digit_run (c ∷ s) = let more = suc (digit_run s) in if is_digit c then more else 0

-- `(\d{3})+(?!\d)` matches at the front: a whole number of threes, and at least one.
abbrev at_group : Text → Bool
at_group s = not (digit_run s == 0) && digit_run s % 3 == 0

-- `replace(/\B(?=(\d{3})+(?!\d))/g, ",")` behind a first unit: the comma goes between two word
-- units, the second of which begins a run of threes.
pub group_after : ℕ → Text → Text
unfolding digit_run
group_after prev [] = []
group_after prev (c ∷ s) =
    if is_word prev && at_group (c ∷ s) then b',' ∷ c ∷ group_after c s else c ∷ group_after c s

unfoldable pub group_digits : Text → Text
unfolding group_after
group_digits [] = []
group_digits (c ∷ s) = c ∷ group_after c s

-- `padStart(width, "0")`.
abbrev pub pad_start : ℕ → Text → Text
pad_start width s = replicate (width - length s) b'0' ++ s

pub format_nat : ℕ → ℕ → Text
format_nat n decimals =
    if decimals == 0
    then group_digits (print_nat (n / 10 ^ decimals))
    else group_digits (print_nat (n / 10 ^ decimals))
      ++ b'.' ∷ pad_start decimals (print_nat (n % 10 ^ decimals))

unfoldable pub format_amount : ℤ → ℕ → Text
unfolding format_nat
format_amount (pos n) decimals = format_nat n decimals
format_amount (negsuc n) decimals = b'-' ∷ format_nat (suc n) decimals

-- `/[,\s]/g`.
abbrev pub is_kept : ℕ → Bool
is_kept c = not (c == b',' || is_space c)

-- The text before the first point, and what follows it.
unfoldable pub before_point : Text → Text
before_point [] = []
before_point (c ∷ s) = if c == b'.' then [] else c ∷ before_point s

unfoldable pub after_point : Text → Option Text
after_point [] = none
after_point (c ∷ s) = if c == b'.' then some s else after_point s

-- `/^\d+(\.\d*)?$/`.
abbrev fraction_fits : Option Text → Bool
fraction_fits none = true
fraction_fits (some f) = all_of is_digit f

unfoldable pub is_amount : Text → Bool
is_amount s =
    not (length (before_point s) == 0)
    && all_of is_digit (before_point s)
    && fraction_fits (after_point s)

abbrev or_empty : Option Text → Text
or_empty none = []
or_empty (some f) = f

-- `BigInt` of digits; of none it is 0.
unfoldable pub read_parts : Text → Text → ℕ → ℕ
read_parts whole fraction decimals =
    value whole * 10 ^ decimals + value (take decimals (fraction ++ replicate decimals b'0'))

unfoldable pub parse_cleaned : Text → ℕ → Option ℕ
unfolding is_amount
parse_cleaned s decimals =
    if is_amount s
    then some (read_parts (before_point s) (or_empty (after_point s)) decimals)
    else none

-- An amount that is read is never negative.
unfoldable pub parse_amount : Text → ℕ → Option ℕ
unfolding parse_cleaned
parse_amount input decimals = parse_cleaned (keep is_kept input) decimals

abbrev percent_text : ℤ → Text
percent_text (pos basis) =
    print_nat (basis / 100) ++ b'.' ∷ pad_start 2 (print_nat (basis % 100)) ++ codes "%"
percent_text (negsuc n) =
    print_bigint (quot (negsuc n) (pos 100))
    ++ b'.' ∷ pad_start 2 (print_bigint (sub_ℕ 0 (suc n % 100)))
    ++ codes "%"

abbrev is_positive : ℤ → Bool
is_positive z = not (leb_ℤ z (pos 0))

unfoldable pub coverage_percent : ℤ → ℤ → Option Text
coverage_percent owed held =
    if is_positive owed then some (percent_text (quot (held *ℤ pos 10000) owed)) else none

pub data CoverageState : Type 0 where
  covered short stale : CoverageState

pub record CoverageRecord : Type 0 where
  pub institution : Text
  pub asset : Text
  pub is_anchor : Bool
  pub owed : ℤ
  pub held : ℤ
  pub decimals : ℕ
  pub state : CoverageState
  pub ledger : ℕ
  pub proven_ago : Text
  pub customers : Option ℕ

unfoldable pub coverage_shortfall : CoverageRecord → ℤ
coverage_shortfall r = if leb_ℤ r.owed r.held then pos 0 else r.owed -ℤ r.held

-- `heldShare` in ten-thousandths, which it divides out at the end.
unfoldable pub held_basis_points : CoverageRecord → ℤ
held_basis_points r = if is_positive r.owed then quot (r.held *ℤ pos 10000) r.owed else pos 10000
