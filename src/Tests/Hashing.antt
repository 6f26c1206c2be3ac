-- ===== src/Tests/Hashing.antt =====
-- Hashes, signatures, addresses and blocks of a few transactions.
use chainlang.Prelude.{
  ◌≡◌, ◌≢◌, ◌⊎◌, refl, ◌∙◌, true, some, List, [], ◌∷◌, ◌++◌, Bytes, bytes_eq, replicate, All, arith,
  length, map, ◌≤◌, bytes_beq,
}
use chainlang.Go.Word.{set_bytes, fill_bytes}
use chainlang.Crypto.Primitives.{Collision, PublicKey}
use chainlang.Crypto.Hash.{zero_hash}
use chainlang.Crypto.Signature.{
  address_from_hex, address_hex, sign, verify, unmarshal_pubkey, pubkey_to_address, verify-sign,
  IsAddress, address_from_hex-address_hex,
}
use chainlang.Crypto.Merkle.{merkle_root}
use chainlang.Crypto.Merkle.Duplicate.{merkle_root-duplicate}
use chainlang.Crypto.Merkle.Binding.{merkle_root_binding, IsDigest}
use chainlang.Core.Types.{
  Transaction, Block, tx_payload, tx_hash, verify_signature, validate_block, new_block,
  genesis_block,
}
use chainlang.Core.Types.Validity.{
  validate_block-new_block, verify_signature_sound, validate_block_ignores_signatures,
}
use chainlang.Core.Types.Binding.{SameContents, tx_hash_binding, validate_block_binding}
use chainlang.Tests.Instance.{
  instance_p, instance-HasDigestSize, instance-SignsSoundly, instance-EncodesFaithfully, key_five,
}

-- The address of key five, and a transaction that it signed.
abbrev pub five : Bytes
five = replicate 20 5

abbrev pub unsigned_tx : Transaction
unsigned_tx = record {
  from = five;
  to = replicate 20 9;
  amount = 70;
  fee = 100;
  nonce = 0;
  sender_pubkey = replicate 33 5;
  signature = [];
}

-- 32 bytes of the number 5 and 32 of the number 7
abbrev pub signed_tx : Transaction
signed_tx = record unsigned_tx { signature = replicate 31 0 ++ (5 ∷ replicate 31 0) ++ 7 ∷ [] }

pub signed_tx-verifies : verify_signature instance_p signed_tx ≡ true
unfolding verify_signature unmarshal_pubkey instance_p bytes_beq pubkey_to_address verify set_bytes
signed_tx-verifies = refl

signed_tx_sound :
    (k : PublicKey) × (unmarshal_pubkey instance_p signed_tx.sender_pubkey ≡ some k)
    × (pubkey_to_address instance_p (some k) ≡ signed_tx.from)
    × (64 ≤ length signed_tx.signature)
    × (verify instance_p (some k) (tx_hash instance_p signed_tx) signed_tx.signature ≡ true)
signed_tx_sound = verify_signature_sound instance_p signed_tx signed_tx-verifies

signs : sign instance_p key_five (tx_hash instance_p unsigned_tx) ≡ some signed_tx.signature
unfolding sign instance_p fill_bytes
signs = refl

verify-sign_example :
    (verify instance_p
        (some key_five.public_key)
        (tx_hash instance_p unsigned_tx)
        signed_tx.signature
      ≡ true)
    × (length signed_tx.signature ≡ 64)
verify-sign_example =
    verify-sign instance_p key_five (tx_hash instance_p unsigned_tx) instance-SignsSoundly signs

five-IsAddress : IsAddress five
five-IsAddress = record { size = refl; bytes = ground arith }

five_read_back : address_from_hex (address_hex five) ≡ some five
five_read_back = address_from_hex-address_hex five five-IsAddress

abbrev three : List Bytes
three = replicate 32 1 ∷ replicate 32 2 ∷ replicate 32 3 ∷ []

not_empty : {x y : Bytes} → (x ∷ y ∷ []) ≢ []
not_empty e = cc e

merkle_root-duplicate_example :
    merkle_root instance_p ((replicate 32 1 ∷ replicate 32 2 ∷ []) ++ replicate 32 3 ∷ [])
    ≡ merkle_root instance_p
        ((replicate 32 1 ∷ replicate 32 2 ∷ []) ++ replicate 32 3 ∷ replicate 32 3 ∷ [])
merkle_root-duplicate_example =
    merkle_root-duplicate instance_p (replicate 32 3) (replicate 32 1 ∷ replicate 32 2 ∷ [])
      not_empty refl

three-IsDigest : All IsDigest three
three-IsDigest = (refl, (refl, (refl, tt)))

merkle_root_binding_example : (three ≡ three) ⊎ Collision instance_p
merkle_root_binding_example =
    merkle_root_binding instance_p instance-HasDigestSize three three refl three-IsDigest
      three-IsDigest refl

-- The transaction with and without its signature.
same_tx_hash : tx_hash instance_p unsigned_tx ≡ tx_hash instance_p signed_tx
unfolding tx_hash
same_tx_hash = refl

same_payload : (tx_payload unsigned_tx ≡ tx_payload signed_tx) ⊎ Collision instance_p
same_payload =
    tx_hash_binding instance_p instance-EncodesFaithfully unsigned_tx signed_tx same_tx_hash

abbrev first_block : Block
first_block = new_block instance_p 60 1 zero_hash five (signed_tx ∷ [])

made_blocks_valid :
    (validate_block instance_p first_block ≡ true)
    × (validate_block instance_p (genesis_block instance_p five) ≡ true)
made_blocks_valid = validate_block-new_block instance_p 60 1 zero_hash five (signed_tx ∷ [])

-- The block as it is broadcast, and with an empty transaction signature.
abbrev stripped_block : Block
stripped_block = record first_block { transactions = unsigned_tx ∷ []; signature = 1 ∷ [] }

first_block_valid : validate_block instance_p first_block ≡ true
first_block_valid = (validate_block-new_block instance_p 60 1 zero_hash five (signed_tx ∷ [])).0

stripped_payload : map tx_payload (unsigned_tx ∷ []) ≡ map tx_payload first_block.transactions
unfolding new_block
stripped_payload = refl

validate_block_ignores_signatures_example :
    validate_block instance_p stripped_block ≡ validate_block instance_p first_block
validate_block_ignores_signatures_example =
    validate_block_ignores_signatures instance_p first_block (1 ∷ []) (unsigned_tx ∷ [])
      stripped_payload

validate_block_binding_example : SameContents stripped_block first_block ⊎ Collision instance_p
validate_block_binding_example =
    validate_block_binding instance_p instance-EncodesFaithfully stripped_block first_block
      (validate_block_ignores_signatures instance_p first_block (1 ∷ []) (unsigned_tx ∷ [])
          stripped_payload
        ∙ first_block_valid)
      first_block_valid refl
