-- ===== src/Tests/Syncing.antt =====
-- Two lists of blocks for a node with one block: one that extends it, and one that takes its place.
use chainlang.Prelude.{◌≡◌, refl, true, List, [], ◌∷◌, replicate, bytes_beq}
use chainlang.Crypto.Hash.{is_zero, hash_bytes, hash_hex}
use chainlang.Crypto.Merkle
use chainlang.Go.Hex.{encode_to_string}
use chainlang.LevelDb.{memory_db}
use chainlang.Core.Types.{Block, new_block, block_hash, validate_block, tx_hashes}
use chainlang.Core.Chain.{read_block}
use chainlang.Core.Chain.Free.{written_disk}
use chainlang.State.Store.{State, commit}
use chainlang.State.Ledger.{apply_block_locked}
use chainlang.State.Genesis.{apply_genesis_locked}
use chainlang.State.Replay.{reset_and_replay, replay}
use chainlang.Node.{hung, record_signed}
use chainlang.Node.Adopting.{waiting}
use chainlang.Node.Syncing.{on_blocks, is_linked, starts_chain, tip_of}
use chainlang.Node.Syncing.Outcome.{written_disks, on_blocks_extends, on_blocks_replaces}
use chainlang.Tests.Instance.{instance_p}
use chainlang.Tests.Hashing.{five}
use chainlang.Tests.Ledger.{after_genesis, allocation, after, applied}
use chainlang.Tests.Disk.{genesis, second, path_beq}
use chainlang.Tests.Running.{world, node_one, node_one-IsIdle, next_block, next_block-IsAcceptable}

on_blocks_extends_example :
    on_blocks world node_one (next_block ∷ second ∷ [])
    ≡ hung (
        waiting
          (record node_one { block_mu = true; signed = record_signed node_one.signed next_block })
          (written_disk world.json world.os node_one.chain.disk next_block)
          (after after_genesis next_block)
          next_block)
on_blocks_extends_example =
    on_blocks_extends world node_one next_block (second ∷ []) node_one-IsIdle
      next_block-IsAcceptable (applied after_genesis next_block)

-- Its hash is not that of its contents.
abbrev false_genesis : Block
false_genesis = record genesis { hash = replicate 32 9 }

abbrev false_second : Block
false_second = new_block instance_p 0 1 false_genesis.hash five []

abbrev false_list : List Block
false_list = false_genesis ∷ false_second ∷ []

abbrev replaced : State
replaced = (reset_and_replay instance_p memory_db after_genesis allocation [] false_list).0

replays :
    reset_and_replay instance_p memory_db after_genesis allocation [] false_list ≡ (replaced, true)
unfolding reset_and_replay replay apply_genesis_locked apply_block_locked commit memory_db
replays = refl

linked : is_linked world false_genesis (false_second ∷ []) ≡ true
unfolding is_linked validate_block new_block block_hash hash_bytes instance_p tx_hashes
    Merkle.merkle_root bytes_beq
linked = refl

starts : starts_chain false_genesis ≡ true
unfolding starts_chain is_zero
starts = refl

on_blocks_replaces_example :
    on_blocks world node_one false_list
    ≡ hung (
        waiting
          (record node_one { block_mu = true })
          (written_disks world node_one.chain.disk false_list)
          replaced
          (tip_of false_genesis (false_second ∷ [])))
unfolding read_block path_beq bytes_beq hash_hex encode_to_string is_zero new_block
on_blocks_replaces_example =
    on_blocks_replaces world node_one genesis false_genesis (false_second ∷ []) node_one-IsIdle refl
      refl linked refl starts replays
