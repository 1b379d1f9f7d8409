-- ===== src/Sdk/Registry/Hex.antt =====
-- `bufferToHex` and `hexToBuffer` of packages/contract-bindings/src/index.ts, over Node's Buffer:
-- its hex decoder stops at the first pair that is not two hex digits.
use solva.Prelude.{
  ℕ, ◌+◌, ◌-◌, ◌*◌, ◌/◌, ◌%◌, ◌<◌, ◌≡◌, refl, List, [], ◌∷◌, Option, none, some, leb, ltb, ◌==◌,
  ◌&&◌, if◌then◌else◌, arith, All,
}
use solva.Prelude.Text.{Text}

hex_digit : ℕ → ℕ
hex_digit n = if ltb n 10 then b'0' + n else b'a' + (n - 10)

hex_value : ℕ → Option ℕ
hex_value c =
    if leb b'0' c && leb c b'9'
    then some (c - b'0')
    else if leb b'a' c && leb c b'f'
    then some (c - b'a' + 10)
    else if leb b'A' c && leb c b'F'
    then some (c - b'A' + 10)
    else none

unfoldable pub buffer_to_hex : List ℕ → Text
unfolding hex_digit
buffer_to_hex [] = []
buffer_to_hex (b ∷ bytes) = hex_digit (b / 16) ∷ hex_digit (b % 16) ∷ buffer_to_hex bytes

-- `hex.replace(/^0x/, "")`.
strip_prefix : Text → Text
strip_prefix [] = []
strip_prefix (a ∷ []) = a ∷ []
strip_prefix (a ∷ b ∷ s) = if (a == b'0') && (b == b'x') then s else a ∷ b ∷ s

decode_pairs : Text → List ℕ
unfolding hex_value
decode_pairs [] = []
decode_pairs (a ∷ []) = []
decode_pairs (a ∷ b ∷ s) =
    let rest = decode_pairs s in
    elim (hex_value a) [
      | none ↦ []
      | some high ↦ elim (hex_value b) [ none ↦ [] | some low ↦ (high * 16 + low) ∷ rest ]
    ]

unfoldable pub hex_to_buffer : Text → List ℕ
unfolding strip_prefix decode_pairs
hex_to_buffer hex = decode_pairs (strip_prefix hex)

abbrev pub IsByte : ℕ → Type 0
IsByte b = b < 256

hex_value-hex_digit : (n : ℕ) → n < 16 → hex_value (hex_digit n) ≡ some n
unfolding hex_value hex_digit
hex_value-hex_digit n h = ground arith

decode_pairs-buffer_to_hex :
    (bytes : List ℕ) → All IsByte bytes → decode_pairs (buffer_to_hex bytes) ≡ bytes
unfolding decode_pairs buffer_to_hex
decode_pairs-buffer_to_hex [] h = refl
decode_pairs-buffer_to_hex (b ∷ bytes) h = ground (
  arith,
  hex_value-hex_digit (b / 16),
  hex_value-hex_digit (b % 16),
  decode_pairs-buffer_to_hex bytes h.1,
)

strip_prefix-buffer_to_hex :
    (bytes : List ℕ) → strip_prefix (buffer_to_hex bytes) ≡ buffer_to_hex bytes
unfolding strip_prefix buffer_to_hex hex_digit
strip_prefix-buffer_to_hex [] = refl
strip_prefix-buffer_to_hex (b ∷ bytes) = ground arith

-- Bytes written as hex are read back as they were.
pub hex_to_buffer-buffer_to_hex :
    (bytes : List ℕ) → All IsByte bytes → hex_to_buffer (buffer_to_hex bytes) ≡ bytes
unfolding hex_to_buffer
hex_to_buffer-buffer_to_hex bytes h =
    rw (strip_prefix-buffer_to_hex bytes) (decode_pairs-buffer_to_hex bytes h)
