-- ===== src/Crypto/Primitives.antt =====
-- The code that the program calls and does not contain: SHA-256, ECDSA on P-256 and the JSON
-- encoder. They are the fields of one record, which every definition that uses them takes.
use chainlang.Prelude.{ℕ, ◌≡◌, ◌≢◌, Bool, Option, List, Bytes, length}

-- ecdsa.PublicKey on P-256
pub record PublicKey : Type 0 where
  pub x : ℕ
  pub y : ℕ

-- ecdsa.PrivateKey
pub record PrivateKey : Type 0 where
  pub public_key : PublicKey
  pub d : ℕ

-- The fields of the anonymous struct that `TxHash` encodes.
pub record TxPayload : Type 0 where
  pub from : Bytes
  pub to : Bytes
  pub amount : ℕ
  pub fee : ℕ
  pub nonce : ℕ

-- The fields of the anonymous struct that `BlockHash` encodes. An int64 timestamp is its bit
-- pattern.
pub record BlockPayload : Type 0 where
  pub height : ℕ
  pub timestamp : ℕ
  pub previous_hash : Bytes
  pub merkle_root : Bytes
  pub validator_address : Bytes
  pub tx_hashes : List Bytes

pub record Primitives : Type 0 where
  -- sha256.Sum256
  pub sha256 : Bytes → Bytes
  -- elliptic.UnmarshalCompressed, `none` where it returns a nil x; elliptic.MarshalCompressed
  pub unmarshal_compressed : Bytes → Option PublicKey
  pub marshal_compressed : PublicKey → Bytes
  -- ecdsa.Sign with the randomness of one call, and ecdsa.Verify
  pub ecdsa_sign : PrivateKey → Bytes → Option (ℕ × ℕ)
  pub ecdsa_verify : PublicKey → Bytes → ℕ → ℕ → Bool
  -- json.Marshal at the two payloads, and at a list of strings with json.Unmarshal
  pub marshal_tx : TxPayload → Bytes
  pub marshal_block : BlockPayload → Bytes
  pub marshal_strings : List Bytes → Bytes
  pub unmarshal_strings : Bytes → Option (List Bytes)

-- sha256.Sum256 returns a [32]byte.
abbrev pub HasDigestSize : Primitives → Type 0
HasDigestSize p = (b : Bytes) → length (p.sha256 b) ≡ 32

-- Two inputs of SHA-256 with one digest.
pub record Collision (p : Primitives) : Type 0 where
  pub left : Bytes
  pub right : Bytes
  pub differ : left ≢ right
  pub same_digest : p.sha256 left ≡ p.sha256 right
