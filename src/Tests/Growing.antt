-- ===== src/Tests/Growing.antt =====
-- A node that begins with one block and produces the next.
use chainlang.Prelude.{◌≡◌, ◌⊎◌, refl, false, none, List, [], ◌∷◌, arith, if◌then◌else◌, bytes_beq}
use chainlang.Crypto.Merkle
use chainlang.Config.{default_chain_config}
use chainlang.Go.Hex.{encode_to_string}
use chainlang.Crypto.Hash.{zero_hash, is_zero, hash_bytes, hash_hex, is_zero-zero_hash}
use chainlang.Core.Types.{Block, new_block, block_hash}
use chainlang.Core.Types.Validity.{validate_block-new_block}
use chainlang.Core.Files.{Disk, block_path}
use chainlang.Core.Chain.{held_by_readers, block_name, read_block}
use chainlang.Core.Chain.Growing.{Weakness, IsStamped, IsStamped-valid}
use chainlang.Core.Chain.Walking.{IsReadable}
use chainlang.Node.{World, Node}
use chainlang.Node.Receiving.Outcome.{IsIdle}
use chainlang.Node.Api.Explorer.{HasBranch}
use chainlang.Node.Session.{Event, received, ticked, woken, new_tx, after_events}
use chainlang.Node.Session.History.{after_events-Grown}
use chainlang.Node.Session.History.Growth.{Grown, Keeps}
use chainlang.Core.Chain.{append_block, save, last_block, get_block}
use chainlang.State.Ledger.{apply_block}
use chainlang.State.Genesis.{apply_genesis}
use chainlang.State.Validators.{get_validator_set, collect}
use chainlang.Mempool.{pending}
use chainlang.LevelDb.{memory_db}
use chainlang.Go.Hex.{decode_string}
use chainlang.Go.Word.{fill_bytes, add64}
use chainlang.Crypto.Signature.{address_from_hex, sign}
use chainlang.Node.{validator_set}
use chainlang.Node.Session.{left_by}
use chainlang.Node.Producing.{
  produce, produce_after, build, signed_block, install, applied, append_applied,
}
use chainlang.Tests.Encoding.{
  block_json, block_json-RestoresBlock, block_json-IsReliable, byte_p, byte_p-HasByteDigests,
  byte_p-EncodesFaithfully,
}
use chainlang.Tests.Instance.{instance_p}
use chainlang.Tests.Hashing.{signed_tx, five}
use chainlang.Tests.Ledger.{after_genesis}
use chainlang.Tests.Disk.{memory_os, memory_os-KeepsFiles, path_beq, path_beq_iff}
use chainlang.Tests.Running.{world, node_one}

abbrev pub byte_world : World
byte_world = record world { p = byte_p; json = block_json }

pub byte_world-Keeps : Keeps byte_p block_json memory_os
byte_world-Keeps = record {
  files = memory_os-KeepsFiles;
  restores = block_json-RestoresBlock;
  faithful = byte_p-EncodesFaithfully;
  digests = byte_p-HasByteDigests;
}

abbrev first : Block
first = new_block byte_p 0 0 zero_hash five []

abbrev disk_first : Disk
disk_first = λ p.
    if path_beq p (block_path (block_name first.hash)) then block_json.marshal_file first else none

abbrev node_first : Node
node_first = record node_one {
  chain = record {
    mu = held_by_readers 0;
    disk = disk_first;
    cfg = default_chain_config;
    height = 0;
    last_hash = first.hash;
  };
}

node_first-IsIdle : IsIdle node_first
node_first-IsIdle = record { unlocked = refl; free = refl }

first-IsStamped : IsStamped byte_p first
first-IsStamped =
    IsStamped-valid byte_p byte_p-HasByteDigests first
      (validate_block-new_block byte_p 0 0 zero_hash five []).0

first-IsReadable : IsReadable block_json disk_first first
unfolding read_block path_beq block_json
first-IsReadable =
    let name = block_path (block_name first.hash) in
    let same = (path_beq_iff name name).1 refl in rw same (block_json-RestoresBlock first _ refl)

first_nonzero : is_zero first.hash ≡ false
unfolding new_block block_hash hash_bytes byte_p instance_p is_zero Merkle.merkle_root
first_nonzero = refl

first-HasBranch : HasBranch byte_world node_first first []
unfolding new_block
first-HasBranch = record {
  free = refl;
  last_hash = refl;
  height = refl;
  nonzero = first_nonzero;
  branch = (first-IsReadable, refl, is_zero-zero_hash);
}

-- A block is produced, a transaction comes, the node asks for blocks, and another tick follows.
abbrev pub busy_day : List Event
busy_day = ticked 4 ∷ received 10 (λ addr. none) (new_tx signed_tx) ∷ woken ∷ ticked 8 ∷ []

produces_second : (left_by (produce byte_world 4 node_first)).chain.height ≡ 1
unfolding new_block block_hash hash_bytes byte_p instance_p Merkle.merkle_root produce produce_after
    build signed_block install applied append_applied append_block save last_block get_block
    read_block path_beq bytes_beq hash_hex encode_to_string is_zero validator_set get_validator_set
    apply_genesis memory_db sign pending fill_bytes address_from_hex decode_string collect
    apply_block add64 block_json
produces_second = refl

after_events-Grown_example :
    Grown byte_world after_genesis (first ∷ []) (after_events byte_world node_first busy_day)
    ⊎ Weakness byte_p
unfolding new_block
after_events-Grown_example =
    after_events-Grown byte_world byte_world-Keeps block_json-IsReliable node_first first []
      busy_day node_first-IsIdle first-HasBranch (first-IsStamped, tt)
      (refl, (refl, (refl, (refl, tt)))) (omega arith)
