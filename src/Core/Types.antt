-- ===== src/Core/Types.antt =====
-- core/types.go and `GenesisBlock` of core/genesis.go: transactions, blocks and their hashes.
pub mod Binding
pub mod Validity
use chainlang.Prelude.{
  ℕ, Bool, false, not, ◌||◌, List, [], map, ltb, leb, length, Bytes, bytes_eq, ◌==◌, if◌then◌else◌,
  is_some,
}
use chainlang.Config.{min_fee}
use chainlang.Crypto.Primitives.{Primitives, TxPayload, BlockPayload}
use chainlang.Crypto.Hash.{hash_bytes, zero_hash}
use chainlang.Crypto.Signature.{pubkey_to_address, unmarshal_pubkey, verify}
use chainlang.Crypto.Merkle

pub record Transaction : Type 0 where
  pub from : Bytes
  pub to : Bytes
  pub amount : ℕ
  pub fee : ℕ
  pub nonce : ℕ
  pub sender_pubkey : Bytes
  pub signature : Bytes

-- The timestamp is the bit pattern of the int64.
pub record Block : Type 0 where
  pub height : ℕ
  pub timestamp : ℕ
  pub previous_hash : Bytes
  pub merkle_root : Bytes
  pub validator_address : Bytes
  pub transactions : List Transaction
  pub signature : Bytes
  pub hash : Bytes

abbrev pub tx_payload : Transaction → TxPayload
tx_payload t = record { from = t.from; to = t.to; amount = t.amount; fee = t.fee; nonce = t.nonce }

unfoldable pub satisfies_min_fee : Transaction → Bool
satisfies_min_fee t = leb min_fee t.fee

module _ (p : Primitives) where
  unfoldable pub tx_hash : Transaction → Bytes
  unfolding hash_bytes
  tx_hash t = hash_bytes p (p.marshal_tx (tx_payload t))

  unfoldable pub verify_signature : Transaction → Bool
  verify_signature t =
      let pub_key = unmarshal_pubkey p t.sender_pubkey in
      if not (is_some pub_key) || ltb (length t.signature) 64
      then false
      else if not (pubkey_to_address p pub_key == t.from)
      then false
      else verify p pub_key (tx_hash t) t.signature

  unfoldable pub tx_hashes : List Transaction → List Bytes
  tx_hashes txs = map tx_hash txs

  abbrev pub block_payload : Block → BlockPayload
  block_payload b = record {
    height = b.height;
    timestamp = b.timestamp;
    previous_hash = b.previous_hash;
    merkle_root = b.merkle_root;
    validator_address = b.validator_address;
    tx_hashes = tx_hashes b.transactions;
  }

  unfoldable pub block_hash : Block → Bytes
  unfolding hash_bytes tx_hashes
  block_hash b = hash_bytes p (p.marshal_block (block_payload b))

  unfoldable pub set_hash : Block → Block
  set_hash b = record b { hash = block_hash b }

  -- `now` is `time.Now().Unix()`.
  unfoldable pub new_block : ℕ → ℕ → Bytes → Bytes → List Transaction → Block
  unfolding set_hash
  new_block now height prev_hash validator txs = set_hash (record {
    height = height;
    timestamp = now;
    previous_hash = prev_hash;
    merkle_root = Merkle.merkle_root p (tx_hashes txs);
    validator_address = validator;
    transactions = txs;
    signature = [];
    hash = zero_hash;
  })

  unfoldable pub validate_block : Block → Bool
  validate_block b =
      if not (Merkle.merkle_root p (tx_hashes b.transactions) == b.merkle_root)
      then false
      else block_hash b == b.hash

  unfoldable pub genesis_block : Bytes → Block
  unfolding set_hash
  genesis_block validator = set_hash (record {
    height = 0;
    timestamp = 0;
    previous_hash = zero_hash;
    merkle_root = zero_hash;
    validator_address = validator;
    transactions = [];
    signature = [];
    hash = zero_hash;
  })
