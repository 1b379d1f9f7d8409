-- ===== src/Console/Passkey/Errors.antt =====
-- The messages of the wallet's contract: apps/web/src/lib/passkey/wallet-errors.ts.
use solva.Prelude.{ℕ, Bool, false, [], ◌∷◌, ◌++◌, Option, none, some, ◌==◌, if◌then◌else◌}
use solva.Prelude.Text.{Text, codes, is_digit, is_space, value, print_nat, join}

pub record WalletError : Type 0 where
  pub code : Option ℕ
  pub message : Text
  pub already_exists : Bool

-- `WALLET_ERRORS`, or none for a code it does not have.
unfoldable pub wallet_error : ℕ → Option Text
wallet_error code =
    if code == 1
    then some (codes "That signer was not found on the wallet.")
    else (if code == 2
        then some
            (codes "This orchestrator key is already a signer on your wallet. You are all set.")
        else (if code == 3
            then some (codes "The wallet rejected the request context.")
            else (if code == 4
                then some (codes "That signer has expired. Add it again.")
                else (if code == 5
                    then some (codes "The signer is not allowed to authorize this contract.")
                    else (if code == 6
                        then some (codes "A policy signer rejected the request.")
                        else (if code == 7
                            then some (codes "The signature did not match the signer key.")
                            else (if code == 8
                                then some (codes "The passkey challenge did not match. Try again.")
                                else (if code == 9
                                    then some
                                        (codes "The wallet could not read the passkey response.")
                                    else none))))))))

-- The text behind a literal that a text starts with.
unfoldable pub behind : Text → Text → Option Text
behind [] s = some s
behind (c ∷ literal) [] = none
behind (c ∷ literal) (d ∷ s) = if c == d then behind literal s else none

unfoldable pub skip_space : Text → Text
skip_space [] = []
skip_space (c ∷ s) = if is_space c then skip_space s else c ∷ s

abbrev some_digits : Text → Option Text
some_digits [] = none
some_digits (c ∷ s) = some (c ∷ s)

-- The digits up to a closing bracket, at least one.
unfoldable pub closed_digits : Text → Text → Option Text
closed_digits found [] = none
closed_digits found (c ∷ s) =
    let more = closed_digits (found ++ c ∷ []) s in
    if is_digit c then more else (if c == b')' then some_digits found else none)

abbrev behind_hash : Option Text → Option Text
behind_hash none = none
behind_hash (some s) = closed_digits [] s

abbrev behind_comma : Option Text → Option Text
behind_comma none = none
behind_comma (some s) = behind_hash (behind (codes "#") (skip_space s))

abbrev first_of : Option Text → Option Text → Option Text
first_of none later = later
first_of (some found) later = some found

-- `raw.match(/Error\(Contract,\s*#(\d+)\)/)`: the digits of the first match.
unfoldable pub match_code : Text → Option Text
unfolding behind skip_space closed_digits
match_code [] = none
match_code (c ∷ s) =
    let later = match_code s in
    first_of (behind_comma (behind (codes "Error(Contract,") (c ∷ s))) later

abbrev message_or : Option Text → ℕ → Text
message_or (some message) code = message
message_or none code =
    join (codes "The wallet rejected the request (error " ∷ print_nat code ∷ codes ")." ∷ [])

abbrev described : Text → Option Text → WalletError
described raw none = record { code = none; message = raw; already_exists = false }
described raw (some found) = record {
  code = some (value found);
  message = message_or (wallet_error (value found)) (value found);
  already_exists = value found == 2;
}

-- Codes are small: `Number` is exact on them, and prints them without an exponent.
unfoldable pub describe_wallet_error : Text → WalletError
unfolding match_code wallet_error
describe_wallet_error raw = described raw (match_code raw)
