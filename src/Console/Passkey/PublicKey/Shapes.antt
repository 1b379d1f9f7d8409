-- ===== src/Console/Passkey/PublicKey/Shapes.antt =====
-- Both shapes of a key lead to one signer: apps/web/src/lib/passkey/public-key.ts.
use solva.Prelude.{
  ℕ, zero, suc, ◌+◌, ◌*◌, ◌/◌, ◌%◌, ◌≡◌, refl, ap, ◌∙◌, false, [], ◌∷◌, ◌++◌, some, ◌==◌, length,
  get_elem?, take, drop, length-append, arith,
}
use solva.Prelude.Text.{Text}
use solva.Prelude.Effect.{Result, ok}
use solva.Console.Passkey.PublicKey.{
  Bytes, byte_at, read_length, read_item, read_entries, decode_cose_p256_key, validate_point,
  public_key_from_spki, ◌!>◌, public_key_from_authenticator_data,
}

-- The key as authenticators write it: a map of the key's type, its algorithm, its curve and both
-- coordinates.
pub cose_of : Bytes → Bytes → Bytes
cose_of x y =
    0xa5
    ∷ 0x01
    ∷ 0x02
    ∷ 0x03
    ∷ 0x26
    ∷ 0x20
    ∷ 0x01
    ∷ 0x21
    ∷ 0x58
    ∷ 0x20
    ∷ (x ++ 0x22 ∷ 0x58 ∷ 0x20 ∷ y)

get_elem?-append :
    (xs ys : Bytes) (n i : ℕ) → length xs ≡ n → get_elem? (xs ++ ys) (n + i) ≡ get_elem? ys i
get_elem?-append [] ys n i h = ap (get_elem? ys) (omega arith)
get_elem?-append (x ∷ xs) ys zero i h = absurd (omega arith)
get_elem?-append (x ∷ xs) ys (suc n) i h =
    let next : suc n + i ≡ suc (n + i) = omega arith in
    rw next (get_elem?-append xs ys n i (omega arith))

drop-append : (xs ys : Bytes) (n i : ℕ) → length xs ≡ n → drop (n + i) (xs ++ ys) ≡ drop i ys
drop-append [] ys n i h = ap (λ at. drop at ys) (omega arith)
drop-append (x ∷ xs) ys zero i h = absurd (omega arith)
drop-append (x ∷ xs) ys (suc n) i h =
    let next : suc n + i ≡ suc (n + i) = omega arith in
    rw next (drop-append xs ys n i (omega arith))

take-append : (xs ys : Bytes) (n : ℕ) → length xs ≡ n → take n (xs ++ ys) ≡ xs
take-append [] ys zero h = refl
take-append [] ys (suc n) h = absurd (omega arith)
take-append (x ∷ xs) ys zero h = absurd (omega arith)
take-append (x ∷ xs) ys (suc n) h = ap (◌∷◌ x) (take-append xs ys n (omega arith))

take_all : (xs : Bytes) (n : ℕ) → length xs ≡ n → take n xs ≡ xs
take_all [] zero h = refl
take_all [] (suc n) h = absurd (omega arith)
take_all (x ∷ xs) zero h = absurd (omega arith)
take_all (x ∷ xs) (suc n) h = ap (◌∷◌ x) (take_all xs n (omega arith))

decode-cose_of :
    (x y : Bytes) → length x ≡ 32 → length y ≡ 32 → decode_cose_p256_key (cose_of x y) ≡ ok (x, y)
unfolding decode_cose_p256_key cose_of read_entries read_item read_length byte_at
decode-cose_of x y h k =
    let negative = get_elem?-append x (0x22 ∷ 0x58 ∷ 0x20 ∷ y) 32 0 h in
    let long = get_elem?-append x (0x22 ∷ 0x58 ∷ 0x20 ∷ y) 32 1 h in
    let size = get_elem?-append x (0x22 ∷ 0x58 ∷ 0x20 ∷ y) 32 2 h in
    let front = take-append x (0x22 ∷ 0x58 ∷ 0x20 ∷ y) 32 h in
    let back = drop-append x (0x22 ∷ 0x58 ∷ 0x20 ∷ y) 32 3 h in
    let whole = take_all y 32 k in simp (negative, long, size, front, back, whole, h, k)

-- The data of a registration: the hash of the site's name, the flags, the counter and the kind
-- of the authenticator, the length of the credential's name in two bytes, the name and the key.
pub registration : Bytes → ℕ → Bytes → ℕ → ℕ → Bytes → Bytes → Bytes → Bytes
registration site flags kind high low name x y =
    site ++ flags ∷ (kind ++ high ∷ low ∷ (name ++ cose_of x y))

drop-registration :
    (site : Bytes) (flags : ℕ) (kind : Bytes) (high low : ℕ) (name x y : Bytes) (n : ℕ)
    → length site ≡ 32
    → length kind ≡ 20
    → length name ≡ n
    → drop (55 + n) (registration site flags kind high low name x y) ≡ cose_of x y
unfolding registration
drop-registration site flags kind high low name x y n h k l =
    let rest = name ++ cose_of x y in
    let outer : 55 + n ≡ 32 + suc (20 + suc (suc n)) = omega arith in
    let none_more : n ≡ n + 0 = omega arith in
    rw outer (
      drop-append site (flags ∷ (kind ++ high ∷ low ∷ rest)) 32 (suc (20 + suc (suc n))) h
      ∙ drop-append kind (high ∷ low ∷ rest) 20 (suc (suc n)) k
      ∙ ap (λ i. drop i rest) none_more
      ∙ drop-append name (cose_of x y) n 0 l)

registration-bytes :
    (site : Bytes) (flags : ℕ) (kind : Bytes) (high low : ℕ) (name x y : Bytes)
    → length site ≡ 32
    → length kind ≡ 20
    → (get_elem? (registration site flags kind high low name x y) 32 ≡ some flags)
      × (get_elem? (registration site flags kind high low name x y) 53 ≡ some high)
      × (get_elem? (registration site flags kind high low name x y) 54 ≡ some low)
unfolding registration
registration-bytes site flags kind high low name x y h k =
    let rest = name ++ cose_of x y in
    let inner = flags ∷ (kind ++ high ∷ low ∷ rest) in
    (
      get_elem?-append site inner 32 0 h,
      get_elem?-append site inner 32 21 h ∙ get_elem?-append kind (high ∷ low ∷ rest) 20 0 k,
      get_elem?-append site inner 32 22 h ∙ get_elem?-append kind (high ∷ low ∷ rest) 20 1 k,
    )

module _ (from_hex : Bytes → Result Text (Unit {0})) where
  -- From the data of a registration and from the key in its own format, behind any header of the
  -- right length, the same signer is read, or the same error, for any two coordinates of 32
  -- bytes: the point of both, once the curve's check of it has passed.
  pub public_key-agrees :
      (site : Bytes) (flags : ℕ) (kind : Bytes) (high low : ℕ) (name header x y : Bytes)
      → length site ≡ 32
      → (flags / 64) % 2 ≡ 1
      → length header ≡ 26
      → length kind ≡ 20
      → length name ≡ high * 256 + low
      → length x ≡ 32
      → length y ≡ 32
      → (public_key_from_authenticator_data from_hex
            (registration site flags kind high low name x y)
          ≡ public_key_from_spki from_hex (header ++ 4 ∷ (x ++ y)))
        × (public_key_from_spki from_hex (header ++ 4 ∷ (x ++ y))
            ≡ (from_hex (4 ∷ (x ++ y)) !> (λ on_curve. ok (4 ∷ (x ++ y)))))
  unfolding public_key_from_authenticator_data public_key_from_spki validate_point byte_at
  public_key-agrees site flags kind high low name header x y h attested hd k l hx hy =
      let (flag, first, second) = registration-bytes site flags kind high low name x y h k in
      let cose = drop-registration site flags kind high low name x y (high * 256 + low) h k l in
      let decoded = decode-cose_of x y hx hy in
      let long : length (x ++ y) ≡ 64 = omega (arith, length-append x y) in
      let bit : ((flags / 64) % 2 == 0) ≡ false = simp attested in
      let whole : length (header ++ 4 ∷ (x ++ y)) ≡ 91 =
        omega (arith, length-append header (4 ∷ (x ++ y)), long, hd) in
      let behind = drop-append header (4 ∷ (x ++ y)) 26 0 hd in
      (
        simp (flag, bit, first, second, cose, decoded, long, whole, behind),
        simp (long, whole, behind),
      )
