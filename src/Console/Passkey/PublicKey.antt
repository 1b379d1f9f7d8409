-- ===== src/Console/Passkey/PublicKey.antt =====
-- The signer key of a passkey: apps/web/src/lib/passkey/public-key.ts. Bytes are numbers below
-- 256; the curve's own check of a point is a parameter.
pub mod Shapes
mod Examples
use solva.Prelude.{
  ℕ, zero, suc, ◌+◌, ◌-◌, ◌*◌, ◌/◌, ◌%◌, Bool, true, false, ◌&&◌, ◌||◌, not, List, [], ◌∷◌, ◌++◌,
  Option, none, some, ◌==◌, ltb, if◌then◌else◌, length, get_elem?, take, drop,
}
use solva.Prelude.Int.{ℤ, pos, negsuc}
use solva.Prelude.Text.{Text, codes, print_nat}
use solva.Prelude.Effect.{Result, ok, err}

abbrev pub Bytes : Type 0
Bytes = List ℕ

abbrev pub uncompressed_point_length : ℕ
uncompressed_point_length = 65

abbrev pub uncompressed_point_prefix : ℕ
uncompressed_point_prefix = 4

abbrev pub spki_p256_header : Bytes
spki_p256_header =
    0x30 ∷ 0x59 ∷ 0x30 ∷ 0x13 ∷ 0x06 ∷ 0x07 ∷ 0x2a ∷ 0x86 ∷ 0x48 ∷ 0xce ∷ 0x3d ∷ 0x02 ∷ 0x01 ∷ 0x06
    ∷ 0x08 ∷ 0x2a ∷ 0x86 ∷ 0x48 ∷ 0xce ∷ 0x3d ∷ 0x03 ∷ 0x01 ∷ 0x07 ∷ 0x03 ∷ 0x42 ∷ 0x00 ∷ []

abbrev or_end : Option ℕ → ℕ → Result Text ℕ
or_end none index = err (codes "unexpected end of buffer at index " ++ print_nat index)
or_end (some byte) index = ok byte

unfoldable pub byte_at : Bytes → ℕ → Result Text ℕ
byte_at buffer index = or_end (get_elem? buffer index) index

-- The next step of code that throws.
infixl 5 ◌!>◌
abbrev pub ◌!>◌ {ℓ κ} :
    {A : Type ℓ} {B : Type κ} → Result Text A → (A → Result Text B) → Result Text B
ok a !> f = f a
err error !> f = err error

-- The readers of `decodeCoseP256Key` take `pos`, and give what they read with the next one. `<<`
-- and `|` on two bytes, and `>>` and `&`, are written as arithmetic.
unfoldable pub read_length : Bytes → ℕ → ℕ → Result Text (ℕ × ℕ)
unfolding byte_at
read_length cose info at =
    if ltb info 24
    then ok (info, at)
    else (if info == 24
        then byte_at cose at !> (λ value. ok (value, at + 1))
        else (if info == 25
            then byte_at cose at
              !> (λ high. byte_at cose (at + 1) !> (λ low. ok (high * 256 + low, at + 2)))
            else err (codes "unsupported CBOR length encoding in COSE key")))

pub data Item : Type 0 where
  integer : ℤ → Item
  bytes : Bytes → Item

abbrev slice_of : Bytes → ℕ × ℕ → Item × ℕ
slice_of cose (size, at) = (bytes (take size (drop at cose)), at + size)

abbrev item_of : Bytes → ℕ → ℕ → ℕ → Result Text (Item × ℕ)
item_of cose major info at =
    if major == 0
    then read_length cose info at !> (λ read. ok (integer (pos read.0), read.1))
    else (if major == 1
        then read_length cose info at !> (λ read. ok (integer (negsuc read.0), read.1))
        else (if major == 2 || major == 3
            then read_length cose info at !> (λ read. ok (slice_of cose read))
            else err (
                codes "unsupported CBOR major type " ++ (print_nat major ++ codes " in COSE key"))))

unfoldable pub read_item : Bytes → ℕ → Result Text (Item × ℕ)
unfolding byte_at read_length
read_item cose at = byte_at cose at !> (λ head. item_of cose (head / 32) (head % 32) (at + 1))

-- `x` and `y`, as far as they were read.
pub record Coordinates : Type 0 where
  pub x : Option Bytes
  pub y : Option Bytes

-- One entry: the labels -2 and -3 with bytes are kept.
abbrev keep_entry : Item → Item → Coordinates → Coordinates
keep_entry (integer (negsuc n)) (bytes value) found =
    if n == 1
    then record found { x = some value }
    else (if n == 2 then record found { y = some value } else found)
keep_entry _ _ found = found

-- The loop over the entries of the map.
unfoldable pub read_entries : Bytes → ℕ → ℕ → Coordinates → Result Text Coordinates
unfolding read_item
read_entries cose zero at found = ok found
read_entries cose (suc count) at found = read_item cose at !> (λ label.
    read_item cose label.1
    !> (λ value. read_entries cose count value.1 (keep_entry label.0 value.0 found)))

abbrev missing_coordinates : Text
missing_coordinates = codes "COSE key is missing valid P-256 coordinates"

abbrev both_of : Option Bytes → Option Bytes → Result Text (Bytes × Bytes)
both_of (some x) (some y) =
    if length x == 32 && length y == 32 then ok (x, y) else err missing_coordinates
both_of _ _ = err missing_coordinates

abbrev entries_of : Bytes → ℕ → Result Text Coordinates
entries_of cose head =
    if head / 32 == 5
    then read_entries cose (head % 32) 1 (record { x = none; y = none })
    else err (codes "COSE key is not a CBOR map")

unfoldable pub decode_cose_p256_key : Bytes → Result Text (Bytes × Bytes)
unfolding read_entries byte_at
decode_cose_p256_key cose =
    byte_at cose 0 !> (λ head. entries_of cose head !> (λ found. both_of found.x found.y))

abbrev starts_point : Option ℕ → Bool
starts_point none = false
starts_point (some byte) = byte == uncompressed_point_prefix

-- `p256.Point.fromHex` throws where the point is not on the curve.
module _ (from_hex : Bytes → Result Text (Unit {0})) where
  unfoldable pub validate_point : Bytes → Result Text Bytes
  validate_point point =
      if length point == uncompressed_point_length && starts_point (get_elem? point 0)
      then from_hex point !> (λ on_curve. ok point)
      else err (codes "expected a 65-byte uncompressed P-256 point")

  unfoldable pub public_key_from_spki : Bytes → Result Text Bytes
  unfolding validate_point
  public_key_from_spki spki =
      if length spki == length spki_p256_header + uncompressed_point_length
      then validate_point (drop (length spki_p256_header) spki)
      else err (
          codes "unexpected SPKI length: got "
          ++ (print_nat (length spki)
              ++ (codes ", expected "
                  ++ print_nat (length spki_p256_header + uncompressed_point_length))))

  abbrev point_of : Bytes × Bytes → Bytes
  point_of (x, y) = uncompressed_point_prefix ∷ (x ++ y)

  abbrev attested_key : Bytes → ℕ → Result Text Bytes
  attested_key authenticator_data flags =
      if (flags / 64) % 2 == 0
      then err (codes "authenticator data has no attested credential data")
      else byte_at authenticator_data 53 !> (λ high. byte_at authenticator_data 54 !> (λ low.
        decode_cose_p256_key (drop (55 + (high * 256 + low)) authenticator_data)
        !> (λ key. validate_point (point_of key))))

  unfoldable pub public_key_from_authenticator_data : Bytes → Result Text Bytes
  unfolding validate_point decode_cose_p256_key
  public_key_from_authenticator_data authenticator_data =
      byte_at authenticator_data 32 !> (λ flags. attested_key authenticator_data flags)
