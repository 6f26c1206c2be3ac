-- ===== src/Crypto/Hash.antt =====
-- crypto/hash.go: 32-byte hashes.
use chainlang.Prelude.{
  ℕ, ◌≡◌, refl, Bool, true, ◌&&◌, inl, inr, ◌⊎◌, [], ◌∷◌, arith, nat_beq, ==_cases, Bytes, bytes_eq,
  if◌then◌else◌, length, replicate,
}
use chainlang.Go.Hex.{encode_to_string, decode_string}
use chainlang.Crypto.Primitives.{Primitives, Collision}

abbrev pub hash_size : ℕ
hash_size = 32

-- `Hash{}`
abbrev pub zero_hash : Bytes
zero_hash = replicate hash_size 0

unfoldable pub hash_bytes : Primitives → Bytes → Bytes
hash_bytes p d = p.sha256 d

-- The error of the decoder is dropped: only the number of bytes it returned is looked at.
unfoldable pub hash_from_hex : Bytes → Bytes
hash_from_hex s =
    let b = (decode_string s).0 in if nat_beq (length b) hash_size then b else zero_hash

unfoldable pub hash_hex : Bytes → Bytes
hash_hex h = encode_to_string h

-- `h.IsZero()`
unfoldable pub is_zero : Bytes → Bool
is_zero [] = true
is_zero (b ∷ bs) = nat_beq b 0 && is_zero bs

pub is_zero-zero_hash : is_zero zero_hash ≡ true
unfolding is_zero
is_zero-zero_hash = refl

-- A hash that passes `IsZero` is `Hash{}`.
pub eq_zero_of_is_zero : (h : Bytes) → is_zero h ≡ true → h ≡ replicate (length h) 0
unfolding is_zero
eq_zero_of_is_zero [] e = refl
eq_zero_of_is_zero (b ∷ bs) e = ground (arith, eq_zero_of_is_zero bs)

-- Equal digests come of equal inputs, or they are a collision.
pub hash_bytes_binding :
    (p : Primitives) (a b : Bytes) → hash_bytes p a ≡ hash_bytes p b → (a ≡ b) ⊎ Collision p
unfolding hash_bytes
hash_bytes_binding p a b e = elim (==_cases a b) [
  | inl same ↦ inl same.1
  | inr other ↦ inr (record { left = a; right = b; differ = other.1; same_digest = e })
]
