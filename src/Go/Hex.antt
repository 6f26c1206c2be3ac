-- ===== src/Go/Hex.antt =====
-- `encoding/hex`: `EncodeToString` and `DecodeString`. Decoding returns the bytes before the first
-- error beside the error, as the package documents, and takes digits of either case.
use chainlang.Prelude.{
  ℕ, ◌+◌, ◌-◌, ◌*◌, ◌/◌, ◌%◌, ◌<◌, ◌≡◌, ◌≢◌, refl, ap, Bool, true, false, ◌&&◌, Option, none, some,
  [], ◌∷◌, arith, leb, ltb, if◌then◌else◌, Bytes, All, length,
}

hex_digit : ℕ → ℕ
hex_digit d = if ltb d 10 then d + 48 else d + 87

hex_value : ℕ → Option ℕ
hex_value c =
    if leb 48 c && leb c 57
    then some (c - 48)
    else if leb 97 c && leb c 102
    then some (c - 87)
    else if leb 65 c && leb c 70
    then some (c - 55)
    else none

unfoldable pub encode_to_string : Bytes → Bytes
unfolding hex_digit
encode_to_string [] = []
encode_to_string (b ∷ bs) = hex_digit (b / 16) ∷ hex_digit (b % 16) ∷ encode_to_string bs

decode_pair : Option ℕ → Option ℕ → Bytes × Bool → Bytes × Bool
decode_pair (some h) (some l) (bs, good) = ((h * 16 + l) ∷ bs, good)
decode_pair _ _ rest = ([], false)

-- The bytes decoded, and whether there was no error.
unfoldable pub decode_string : Bytes → Bytes × Bool
unfolding hex_value decode_pair
decode_string [] = ([], true)
decode_string (c ∷ []) = ([], false)
decode_string (c ∷ d ∷ rest) = decode_pair (hex_value c) (hex_value d) (decode_string rest)

hex_value-hex_digit : (d : ℕ) → d < 16 → hex_value (hex_digit d) ≡ some d
unfolding hex_value hex_digit
hex_value-hex_digit d h = ground arith

pub decode_string-encode_to_string :
    (bs : Bytes) → All (λ b. b < 256) bs → decode_string (encode_to_string bs) ≡ (bs, true)
unfolding decode_string encode_to_string decode_pair
decode_string-encode_to_string [] h = refl
decode_string-encode_to_string (b ∷ bs) h =
    rw
      (
        hex_value-hex_digit (b / 16) (omega arith),
        hex_value-hex_digit (b % 16) (omega arith),
        decode_string-encode_to_string bs h.1,
      )
      (let e : b / 16 * 16 + b % 16 ≡ b = omega arith in rw e)

pub length-encode_to_string : (bs : Bytes) → length (encode_to_string bs) ≡ 2 * length bs
unfolding encode_to_string
length-encode_to_string [] = refl
length-encode_to_string (b ∷ bs) = omega (arith, length-encode_to_string bs)

-- Two addresses or hashes with the same text are the same bytes.
pub encode_to_string_injective :
    (xs ys : Bytes)
    → All (λ b. b < 256) xs
    → All (λ b. b < 256) ys
    → encode_to_string xs ≡ encode_to_string ys
    → xs ≡ ys
encode_to_string_injective xs ys hx hy e =
    cc (
      decode_string-encode_to_string xs hx,
      decode_string-encode_to_string ys hy,
      ap decode_string e,
    )

-- A text in hexadecimal does not begin with a dot.
pub encode_to_string_dotless :
    (b : ℕ) (bs : Bytes)
    → (c : ℕ) × (rest : Bytes) × (encode_to_string (b ∷ bs) ≡ c ∷ rest) × (c ≢ 46)
unfolding encode_to_string hex_digit
encode_to_string_dotless b bs = (_, _, refl, λ e. ground arith)

pub encode_to_string-IsAscii :
    (bs : Bytes) → All (λ b. b < 256) bs → All (λ c. c < 128) (encode_to_string bs)
unfolding encode_to_string hex_digit
encode_to_string-IsAscii [] h = tt
encode_to_string-IsAscii (b ∷ bs) h =
    (ground arith, (ground arith, encode_to_string-IsAscii bs h.1))
