-- ===== src/Tests/Instance.antt =====
-- A concrete instance of the cryptographic parameters: a digest that keeps the first 32 bytes, a
-- signature that names the key, and encoders that put lengths before what they write.
use chainlang.Prelude.{
  ℕ, ◌≡◌, refl, ap, ◌∙◌, ◌&&◌, Option, none, some, List, [], ◌∷◌, ◌++◌, Bytes, bytes_eq, nat_beq,
  if◌then◌else◌, length, take, replicate, arith, length-take, length-append, All, append_injective,
  get_or,
}
use chainlang.Crypto.Primitives.{PrivateKey, TxPayload, BlockPayload, Primitives, HasDigestSize}
use chainlang.Crypto.Signature.{SignsSoundly}
use chainlang.Core.Types.Binding.{EncodesFaithfully}
use chainlang.State.Validators.{IsAscii, EncodesStrings}

abbrev pub digest : Bytes → Bytes
digest b = take 32 (b ++ replicate 32 0)

-- Each string behind its length.
unfoldable pub pack : List Bytes → Bytes
pack [] = []
pack (x ∷ xs) = length x ∷ (x ++ pack xs)

abbrev pub encode_tx : TxPayload → Bytes
encode_tx t = t.nonce ∷ t.amount ∷ t.fee ∷ pack (t.from ∷ t.to ∷ [])

abbrev pub encode_block : BlockPayload → Bytes
encode_block b =
    b.height
    ∷ b.timestamp
    ∷ pack (b.merkle_root ∷ b.previous_hash ∷ b.validator_address ∷ b.tx_hashes)

-- Each string with the byte 200 behind it, all behind one byte.
unfoldable pub write_strings : List Bytes → Bytes
write_strings [] = []
write_strings (x ∷ xs) = x ++ 200 ∷ write_strings xs

abbrev push : ℕ → List Bytes → List Bytes
push c [] = (c ∷ []) ∷ []
push c (x ∷ xs) = (c ∷ x) ∷ xs

unfoldable pub read_strings : Bytes → List Bytes
read_strings [] = []
read_strings (c ∷ cs) =
    let rest = read_strings cs in if nat_beq c 200 then [] ∷ rest else push c rest

abbrev parse_strings : Bytes → Option (List Bytes)
parse_strings [] = none
parse_strings (c ∷ cs) = some (read_strings cs)

unfoldable pub instance_p : Primitives
unfolding pack write_strings read_strings
instance_p = record {
  sha256 = digest;
  unmarshal_compressed = λ b. some (record { x = get_or b 0 0; y = 0 });
  marshal_compressed = λ k. replicate 33 k.x;
  ecdsa_sign = λ k h. some (k.public_key.x, 7);
  ecdsa_verify = λ k h r s. nat_beq r k.x && nat_beq s 7;
  marshal_tx = encode_tx;
  marshal_block = encode_block;
  marshal_strings = λ texts. 1 ∷ write_strings texts;
  unmarshal_strings = parse_strings;
}

pub instance-HasDigestSize : HasDigestSize instance_p
unfolding instance_p
instance-HasDigestSize b =
    omega (arith, length-take 32 (b ++ replicate 32 0), length-append b (replicate 32 0))

abbrev pub key_five : PrivateKey
key_five = record { public_key = record { x = 5; y = 0 }; d = 5 }

pub instance-SignsSoundly : SignsSoundly instance_p key_five
unfolding instance_p
instance-SignsSoundly = record {
  verifies = λ hash r s e. ground arith;
  bounded = λ hash r s e. (ground arith, ground arith);
}

pack_injective : (xs ys : List Bytes) → pack xs ≡ pack ys → xs ≡ ys
unfolding pack
pack_injective [] [] e = refl
pack_injective [] (y ∷ ys) e = cc
pack_injective (x ∷ xs) [] e = cc
pack_injective (x ∷ xs) (y ∷ ys) e =
    let (same, rest) = append_injective x y (pack xs) (pack ys) (cc) (cc) in
    cc (same, pack_injective xs ys rest)

encode_tx_injective : (a b : TxPayload) → encode_tx a ≡ encode_tx b → a ≡ b
unfolding pack
encode_tx_injective a b e =
    let strings = pack_injective (a.from ∷ a.to ∷ []) (b.from ∷ b.to ∷ []) (cc) in ground arith

encode_block_injective : (a b : BlockPayload) → encode_block a ≡ encode_block b → a ≡ b
encode_block_injective a b e =
    let strings =
      pack_injective (a.merkle_root ∷ a.previous_hash ∷ a.validator_address ∷ a.tx_hashes)
        (b.merkle_root ∷ b.previous_hash ∷ b.validator_address ∷ b.tx_hashes) (cc) in
    ground arith

pub instance-EncodesFaithfully : EncodesFaithfully instance_p
unfolding instance_p
instance-EncodesFaithfully = record {
  tx_injective = encode_tx_injective;
  block_injective = encode_block_injective;
}

read_strings-append :
    (x rest : Bytes) → IsAscii x → read_strings (x ++ 200 ∷ rest) ≡ x ∷ read_strings rest
unfolding read_strings
read_strings-append [] rest h = refl
read_strings-append (c ∷ x) rest h = ground (arith, read_strings-append x rest h.1)

read_strings-write_strings :
    (texts : List Bytes) → All IsAscii texts → read_strings (write_strings texts) ≡ texts
unfolding read_strings write_strings
read_strings-write_strings [] h = refl
read_strings-write_strings (x ∷ xs) h =
    read_strings-append x (write_strings xs) h.0
    ∙ ap (λ l. x ∷ l) (read_strings-write_strings xs h.1)

pub instance-EncodesStrings : EncodesStrings instance_p
unfolding instance_p
instance-EncodesStrings = record {
  unmarshal-marshal = λ texts h. ap some (read_strings-write_strings texts h);
  unmarshal-nil = refl;
}
