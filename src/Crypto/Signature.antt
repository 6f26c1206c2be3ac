-- ===== src/Crypto/Signature.antt =====
-- crypto/signature.go: addresses, keys and ECDSA signatures.
use chainlang.Prelude.{
  ℕ, ◌<◌, ◌^◌, ◌≡◌, refl, ap, Bool, true, false, not, Option, some, none, [], ◌++◌, arith, ltb,
  nat_beq, Bytes, if◌then◌else◌, length, take, drop, replicate, All, length-append,
  take-append_length, drop-append_length, subst, ◌∙◌, sym, append-nil,
}
use chainlang.Go.Hex.{encode_to_string, decode_string, decode_string-encode_to_string}
use chainlang.Go.Word.{fill_bytes, set_bytes, set_bytes-fill_bytes, length-fill_bytes}
use chainlang.Crypto.Primitives.{Primitives, PublicKey, PrivateKey}

abbrev pub address_size : ℕ
address_size = 20

-- `Address{}`
abbrev pub zero_address : Bytes
zero_address = replicate address_size 0

-- A nil key is `none`.
unfoldable pub pubkey_to_address : Primitives → Option PublicKey → Bytes
pubkey_to_address p none = zero_address
pubkey_to_address p (some pub_key) = take address_size (p.sha256 (p.marshal_compressed pub_key))

unfoldable pub address_from_hex : Bytes → Option Bytes
address_from_hex s =
    let (b, good) = decode_string s in
    if not good then none else if nat_beq (length b) address_size then some b else none

unfoldable pub address_hex : Bytes → Bytes
address_hex a = encode_to_string a

-- 32 bytes of R, then 32 bytes of S
signature_of : ℕ × ℕ → Bytes
signature_of (r, s) = fill_bytes 32 r ++ fill_bytes 32 s

unfoldable pub sign : Primitives → PrivateKey → Bytes → Option Bytes
unfolding signature_of
sign p priv hash = elim (p.ecdsa_sign priv hash) [ none ↦ none | some rs ↦ some (signature_of rs) ]

-- The bytes `sig[from:to]`.
abbrev slice : Bytes → ℕ → ℕ → Bytes
slice sig from n = take n (drop from sig)

unfoldable pub verify : Primitives → Option PublicKey → Bytes → Bytes → Bool
verify p none hash sig = false
verify p (some pub_key) hash sig =
    if ltb (length sig) 64
    then false
    else p.ecdsa_verify pub_key hash (set_bytes (slice sig 0 32)) (set_bytes (slice sig 32 32))

unfoldable pub marshal_pubkey : Primitives → Option PublicKey → Bytes
marshal_pubkey p none = []
marshal_pubkey p (some pub_key) = p.marshal_compressed pub_key

unfoldable pub unmarshal_pubkey : Primitives → Bytes → Option PublicKey
unmarshal_pubkey p b = if ltb (length b) 33 then none else p.unmarshal_compressed b

-- ecdsa.Sign and ecdsa.Verify agree, and the numbers of a P-256 signature have 32 bytes.
pub record SignsSoundly (p : Primitives) (priv : PrivateKey) : Type 0 where
  pub verifies :
      (hash : Bytes) (r s : ℕ)
      → p.ecdsa_sign priv hash ≡ some (r, s)
      → p.ecdsa_verify priv.public_key hash r s ≡ true
  pub bounded :
      (hash : Bytes) (r s : ℕ)
      → p.ecdsa_sign priv hash ≡ some (r, s)
      → (r < 256 ^ 32) × (s < 256 ^ 32)

take-append_at : (n : ℕ) (a b : Bytes) → length a ≡ n → take n (a ++ b) ≡ a
take-append_at n a b e = rw (← e) (take-append_length a b)

drop-append_at : (n : ℕ) (a b : Bytes) → length a ≡ n → drop n (a ++ b) ≡ b
drop-append_at n a b e = rw (← e) (drop-append_length a b)

-- The two halves of a signature are the two numbers.
slice-append :
    (a b : Bytes)
    → length a ≡ 32
    → length b ≡ 32
    → (slice (a ++ b) 0 32 ≡ a) × (slice (a ++ b) 32 32 ≡ b) × (length (a ++ b) ≡ 64)
slice-append a b ha hb = (
  take-append_at 32 a b ha,
  rw (drop-append_at 32 a b ha)
      (ap (λ t. take 32 t) (sym (append-nil b)) ∙ take-append_at 32 b [] hb),
  omega (arith, length-append a b),
)

verify-append :
    (p : Primitives) (pub_key : PublicKey) (hash a b : Bytes)
    → length a ≡ 32
    → length b ≡ 32
    → verify p (some pub_key) hash (a ++ b)
      ≡ p.ecdsa_verify pub_key hash (set_bytes a) (set_bytes b)
unfolding verify
verify-append p pub_key hash a b ha hb =
    let (first, second, size) = slice-append a b ha hb in rw (first, second, size)

-- Where ECDSA verifies what the key signs and its numbers have 32 bytes, a signature that `Sign`
-- returns has 64 bytes and passes `Verify` under the key's public half.
pub verify-sign :
    (p : Primitives) (priv : PrivateKey) (hash : Bytes) {sig : Bytes}
    → SignsSoundly p priv
    → sign p priv hash ≡ some sig
    → (verify p (some priv.public_key) hash sig ≡ true) × (length sig ≡ 64)
unfolding sign
verify-sign p priv hash {sig} sound e = go (p.ecdsa_sign priv hash) refl e
  where
    go :
        (o : Option (ℕ × ℕ))
        → p.ecdsa_sign priv hash ≡ o
        → (let signed : Option Bytes = elim o [ none ↦ none | some rs ↦ some (signature_of rs) ] in
            signed)
          ≡ some sig
        → (verify p (some priv.public_key) hash sig ≡ true) × (length sig ≡ 64)
    go none s h = cc
    go (some (r, t)) s h =
        let same : signature_of (r, t) ≡ sig = cc in
        let bounds = sound.bounded hash r t s in
        let lr = length-fill_bytes 32 r in
        let lt = length-fill_bytes 32 t in
        subst (λ x. (verify p (some priv.public_key) hash x ≡ true) × (length x ≡ 64)) same
          (
            verify-append p priv.public_key hash (fill_bytes 32 r) (fill_bytes 32 t) lr lt
                ∙ rw (set_bytes-fill_bytes 32 r bounds.0, set_bytes-fill_bytes 32 t bounds.1)
                    (sound.verifies hash r t s),
            (slice-append (fill_bytes 32 r) (fill_bytes 32 t) lr lt).2,
          )

-- The values of type `Address`: twenty bytes.
pub record IsAddress (a : Bytes) : Type 0 where
  pub size : length a ≡ address_size
  pub bytes : All (λ b. b < 256) a

-- An address of twenty bytes that is printed in hexadecimal is read back.
pub address_from_hex-address_hex :
    (a : Bytes) → IsAddress a → address_from_hex (address_hex a) ≡ some a
unfolding address_from_hex address_hex
address_from_hex-address_hex a h =
    rw (decode_string-encode_to_string a h.bytes) (ground (arith, h.size))
