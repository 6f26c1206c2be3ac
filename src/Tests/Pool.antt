-- ===== src/Tests/Pool.antt =====
-- A pool, and the validators of a few heights.
use chainlang.Prelude.{
  ◌⊎◌, replicate, ◌≤◌, All, ◌&&◌, not, contains, bytes_eq, ◌+◌, ◌*◌, ◌%◌, ◌<◌, ◌≡◌, refl, true,
  false, none, some, [], ◌∷◌, ◌++◌, arith, get_elem?, bytes_beq,
}
use chainlang.Go.Word.{pos, set_bytes}
use chainlang.Crypto.Signature.{unmarshal_pubkey, pubkey_to_address, verify}
use chainlang.Core.Types.{Block, tx_hash, tx_hashes, verify_signature, satisfies_min_fee}
use chainlang.Config.{min_stake}
use chainlang.Mempool.{AddError, Mempool, has_hash, add, remove, new}
use chainlang.Mempool.Adding.{Acceptable, add_complete, add_sound}
use chainlang.Mempool.Removing.{has_hash-remove}
use chainlang.Mempool.Invariant.{
  IsValidPool, Reachable, created, stepped, added, removed, Reachable-IsValidPool,
}
use chainlang.Consensus.{
  new_set, Validator, ValidatorSet, validator_for_height, verify_block_validator, is_validator,
  size,
}
use chainlang.Consensus.RoundRobin.{
  new_set-stakes, validator_for_height-is_validator, validator_for_height_turn,
  verify_block_validator_unique,
}
use chainlang.Tests.Instance.{instance_p}
use chainlang.Tests.Hashing.{signed_tx, signed_tx-verifies}
use chainlang.Tests.Ledger.{block_of, alice, bob, carol}

-- A pool without a state to ask.
abbrev empty_pool : Mempool
empty_pool = record { txs = []; max = 2 }

signed_tx-Acceptable : Acceptable instance_p none empty_pool signed_tx
unfolding has_hash
signed_tx-Acceptable = record {
  room = omega arith;
  signed = signed_tx-verifies;
  pays = omega arith;
  allowed = tt;
  fresh = refl;
}

accepted_one :
    add instance_p none empty_pool signed_tx
    ≡ (record empty_pool { txs = empty_pool.txs ++ signed_tx ∷ [] }, none)
accepted_one = add_complete instance_p none empty_pool signed_tx signed_tx-Acceptable

abbrev pool_one : Mempool
pool_one = (add instance_p none (new (pos 2)) signed_tx).0

add_sound_example :
    ((add instance_p none pool_one signed_tx
        ≡ (record pool_one { txs = pool_one.txs ++ signed_tx ∷ [] }, none))
      × Acceptable instance_p none pool_one signed_tx)
    ⊎ ((e : AddError) × (add instance_p none pool_one signed_tx ≡ (pool_one, some e)))
add_sound_example = add_sound instance_p none pool_one signed_tx

-- The transaction is added, refused as a duplicate, and removed.
abbrev pool_two : Mempool
pool_two = (add instance_p none pool_one signed_tx).0

pool_one-holds : pool_two.txs ≡ signed_tx ∷ []
unfolding add new verify_signature unmarshal_pubkey instance_p bytes_beq pubkey_to_address verify
    set_bytes satisfies_min_fee tx_hash
pool_one-holds = refl

abbrev pool_three : Mempool
pool_three = remove instance_p pool_two (signed_tx ∷ [])

pool_three-Reachable : Reachable instance_p (pos 2) pool_three
pool_three-Reachable =
    stepped
      (stepped (stepped created (added none (new (pos 2)) signed_tx))
        (added none pool_one signed_tx))
      (removed pool_two (signed_tx ∷ []))

Reachable-IsValidPool_example : IsValidPool instance_p pool_three
Reachable-IsValidPool_example = Reachable-IsValidPool instance_p pool_three-Reachable

has_hash-remove_example :
    has_hash instance_p
      (remove instance_p pool_two (signed_tx ∷ [])).txs
      (tx_hash instance_p signed_tx)
    ≡ has_hash instance_p pool_two.txs (tx_hash instance_p signed_tx)
      && not (contains (tx_hashes instance_p (signed_tx ∷ [])) (tx_hash instance_p signed_tx))
has_hash-remove_example =
    has_hash-remove instance_p pool_two (signed_tx ∷ []) (tx_hash instance_p signed_tx)

stakes_of_genesis :
    All
      (λ (v : Validator). min_stake ≤ v.stake)
      (new_set (
        record { address = replicate 40 b'1'; stake = min_stake }
        ∷ record { address = []; stake = 1 }
        ∷ []))
stakes_of_genesis = new_set-stakes (
    record { address = replicate 40 b'1'; stake = min_stake }
    ∷ record { address = []; stake = 1 }
    ∷ [])

abbrev three_validators : ValidatorSet
three_validators =
    record { address = alice; stake = 7 }
    ∷ record { address = bob; stake = 8 }
    ∷ record { address = carol; stake = 9 }
    ∷ []

three_validators-nonempty : 0 < size three_validators
unfolding size
three_validators-nonempty = omega arith

third_index : 2 < size three_validators
unfolding size
third_index = omega arith

some_validator :
    (v : Validator) × (get_elem? three_validators (7 % size three_validators) ≡ some v)
    × (validator_for_height three_validators 7 ≡ v.address)
    × (is_validator three_validators (validator_for_height three_validators 7) ≡ true)
some_validator = validator_for_height-is_validator three_validators three_validators-nonempty 7

validator_for_height_turn_example :
    validator_for_height three_validators (4 * size three_validators + 2) ≡ carol
validator_for_height_turn_example =
    validator_for_height_turn three_validators three_validators-nonempty 4 2 refl third_index

-- Blocks of height 1 by bob, and one by carol, who is not in turn.
block_by_carol_refused : verify_block_validator three_validators (block_of []) ≡ false
unfolding verify_block_validator bytes_beq
block_by_carol_refused = refl

abbrev block_by_bob : Block
block_by_bob = record (block_of []) { validator_address = bob }

block_by_bob_passes : verify_block_validator three_validators block_by_bob ≡ true
unfolding verify_block_validator bytes_beq
block_by_bob_passes = refl

verify_block_validator_unique_example : (is_validator three_validators bob ≡ true) × (bob ≡ bob)
verify_block_validator_unique_example =
    verify_block_validator_unique three_validators three_validators-nonempty block_by_bob
      block_by_bob block_by_bob_passes block_by_bob_passes refl
