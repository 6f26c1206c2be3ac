-- ===== src/P2p/Messages.antt =====
-- p2p/message.go: the kinds of messages, their payloads and the wire format. encoding/json is a
-- parameter.
use chainlang.Prelude.{ℕ, ◌≡◌, ◌≢◌, Option, none, some, List, [], ◌∷◌, Bytes, All, nat_beq, false}
use chainlang.Go.Word.{ℤ}
use chainlang.Core.Types.{Transaction, Block}

-- `Kind` is a string: a peer can send any.
abbrev pub Kind : Type 0
Kind = Bytes

abbrev pub kind_new_tx : Kind
kind_new_tx = b'n' ∷ b'e' ∷ b'w' ∷ b'_' ∷ b't' ∷ b'x' ∷ []

abbrev pub kind_new_block : Kind
kind_new_block = b'n' ∷ b'e' ∷ b'w' ∷ b'_' ∷ b'b' ∷ b'l' ∷ b'o' ∷ b'c' ∷ b'k' ∷ []

abbrev pub kind_get_blocks : Kind
kind_get_blocks = b'g' ∷ b'e' ∷ b't' ∷ b'_' ∷ b'b' ∷ b'l' ∷ b'o' ∷ b'c' ∷ b'k' ∷ b's' ∷ []

abbrev pub kind_blocks : Kind
kind_blocks = b'b' ∷ b'l' ∷ b'o' ∷ b'c' ∷ b'k' ∷ b's' ∷ []

abbrev pub kind_get_peers : Kind
kind_get_peers = b'g' ∷ b'e' ∷ b't' ∷ b'_' ∷ b'p' ∷ b'e' ∷ b'e' ∷ b'r' ∷ b's' ∷ []

abbrev pub kind_peers : Kind
kind_peers = b'p' ∷ b'e' ∷ b'e' ∷ b'r' ∷ b's' ∷ []

abbrev pub kind_hello : Kind
kind_hello = b'h' ∷ b'e' ∷ b'l' ∷ b'l' ∷ b'o' ∷ []

-- `HelloPayload`
pub record HelloPayload : Type 0 where
  pub genesis_hash : Bytes
  pub listen_addr : Bytes
  pub height : ℕ

-- `GetBlocksPayload`
pub record GetBlocksPayload : Type 0 where
  pub from_height : ℕ
  pub max : ℤ

-- What is sent as a payload. The lists are those of `BlocksPayload` and `PeersPayload`.
pub data Payload : Type 0 where
  hello_payload : HelloPayload → Payload
  get_blocks_payload : GetBlocksPayload → Payload
  blocks_payload : List Block → Payload
  peers_payload : List Bytes → Payload
  block_payload : Block → Payload
  tx_payload : Transaction → Payload

-- encoding/json at a `Message` and at the payloads; `none` is an error, and `[]` a nil payload. A list
-- of pointers to blocks can hold nil.
pub record Wire : Type 0 where
  pub marshal_payload : Payload → Option Bytes
  pub marshal_message : Kind → Bytes → Option Bytes
  pub unmarshal_message : Bytes → Option (Kind × Bytes)
  pub unmarshal_hello : Bytes → Option HelloPayload
  pub unmarshal_get_blocks : Bytes → Option GetBlocksPayload
  pub unmarshal_blocks : Bytes → Option (List (Option Block))
  pub unmarshal_peers : Bytes → Option (List Bytes)
  pub unmarshal_block : Bytes → Option Block
  pub unmarshal_tx : Bytes → Option Transaction

module _ (wire : Wire) where
  abbrev pub raw_of : Option Payload → Option Bytes
  raw_of none = some []
  raw_of (some payload) = wire.marshal_payload payload

  abbrev pub encode_raw : Kind → Option Bytes → Option Bytes
  encode_raw kind none = none
  encode_raw kind (some raw) = wire.marshal_message kind raw

  unfoldable pub encode_message : Kind → Option Payload → Option Bytes
  encode_message kind payload = encode_raw kind (raw_of payload)

  unfoldable pub decode_message : Bytes → Option (Kind × Bytes)
  decode_message text = wire.unmarshal_message text

-- What json.Marshal promises of a message: compact JSON, which holds no newline, and which
-- json.Unmarshal reads back.
pub record IsCarried (wire : Wire) (kind : Kind) (payload : Option Payload) (raw : Bytes)
    : Type 0 where
  pub text : Bytes
  pub marshals : raw_of wire payload ≡ some raw
  pub encodes : wire.marshal_message kind raw ≡ some text
  pub not_empty : text ≢ []
  pub one_line : All (λ c. nat_beq c 10 ≡ false) text
  pub decodes : wire.unmarshal_message text ≡ some (kind, raw)
