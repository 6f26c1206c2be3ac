-- ===== src/Tests/Running.antt =====
-- A node with one block that receives the next, and one that produces it.
use chainlang.Prelude.{◌≡◌, refl, false, none, List, [], ◌∷◌, bytes_beq}
use chainlang.Go.Hex.{encode_to_string, decode_string}
use chainlang.Crypto.Hash.{is_zero, hash_hex, hash_bytes}
use chainlang.Core.Types.{Block, new_block, block_hash}
use chainlang.Core.Types.Validity.{validate_block-new_block}
use chainlang.Core.Chain.{read_block, append_block, save, last_block, get_block}
use chainlang.State.Ledger.{apply_block}
use chainlang.State.Genesis.{apply_genesis}
use chainlang.Prelude.Map.{lookup}
use chainlang.Crypto.Signature.{address_from_hex, sign}
use chainlang.LevelDb.{memory_db}
use chainlang.State.Validators.{get_validator_set, collect}
use chainlang.P2p.Peers.{new_peer_set}
use chainlang.Node.{World, Node, validator_set, signs_twice, finished, broadcast_block}
use chainlang.Node.Receiving.{on_new_block}
use chainlang.Node.Receiving.Outcome.{IsIdle, IsAcceptable, Received, on_new_block-Received}
use chainlang.Node.Producing.{
  produce, draft, produce_after, build, signed_block, install, applied as after_applying,
  append_applied,
}
use chainlang.Node.Producing.Outcome.{Produced, produce-Produced}
use chainlang.Node.Session.{Event, received, ticked, new_tx, left_by, after_events}
use chainlang.Node.Session.Agreement.{IsLevel, Agrees, on_new_block-produce}
use chainlang.Node.Session.Stopped.{IsStopped, on_new_block_stops}
use chainlang.Crypto.Primitives.{PrivateKey}
use chainlang.Mempool.{pending}
use chainlang.Go.Word.{fill_bytes, add64}
use chainlang.Tests.Instance.{instance_p, key_five}
use chainlang.Tests.Hashing.{signed_tx, five}
use chainlang.Tests.Ledger.{after_genesis, allocation, after, applied}
use chainlang.Tests.Disk.{height_json, memory_os, chain_one, genesis, path_beq}

abbrev pub world : World
world = record {
  p = instance_p;
  json = height_json;
  os = memory_os;
  store = memory_db;
  key = key_five;
  listen = b':' ∷ [];
  allocation = allocation;
  validators = [];
}

abbrev pub node_one : Node
node_one = record {
  block_mu = false;
  chain = chain_one;
  state = after_genesis;
  pool = record { txs = signed_tx ∷ []; max = 2 };
  peers = new_peer_set 50 [] (b':' ∷ []);
  signed = [];
  sent = [];
}

abbrev pub next_block : Block
next_block = new_block instance_p 0 1 genesis.hash five (signed_tx ∷ [])

pub node_one-IsIdle : IsIdle node_one
node_one-IsIdle = record { unlocked = refl; free = refl }

pub next_block-IsAcceptable : IsAcceptable world node_one next_block
unfolding read_block path_beq bytes_beq hash_hex encode_to_string is_zero validator_set
    get_validator_set signs_twice apply_genesis memory_db new_block hash_bytes instance_p block_hash
    address_from_hex decode_string collect lookup
next_block-IsAcceptable = record {
  valid = (validate_block-new_block instance_p 0 1 genesis.hash five (signed_tx ∷ [])).0;
  unknown = refl;
  in_turn = refl;
  once = refl;
  follows = refl;
}

on_new_block-Received_example :
    Received world node_one next_block (on_new_block world node_one next_block)
on_new_block-Received_example = on_new_block-Received world node_one next_block node_one-IsIdle

-- Afterwards the transaction comes once more, and the producer's ticker fires.
abbrev later : List Event
later = received 10 (λ addr. none) (new_tx signed_tx) ∷ ticked 8 ∷ []

stays-IsStopped :
    let last = after_events world (left_by (on_new_block world node_one next_block)) later in
    (last.state ≡ after after_genesis next_block)
    × (last.chain.last_hash ≡ next_block.hash)
    × IsStopped last
stays-IsStopped =
    on_new_block_stops world node_one next_block later node_one-IsIdle next_block-IsAcceptable
      (applied after_genesis next_block)

produce-Produced_example : Produced world node_one (produce world 4 node_one)
produce-Produced_example = produce-Produced world node_one node_one-IsIdle 4

-- What node one produces at time 4.
abbrev made_block : Block
made_block = record (draft world 4 genesis (signed_tx ∷ [])) { signature = signed_tx.signature }

abbrev produced_one : Node
produced_one = left_by (produce world 4 node_one)

produces :
    (produce world 4 node_one ≡ finished produced_one)
    × (produced_one.sent ≡ broadcast_block made_block ∷ node_one.sent)
unfolding produce produce_after build signed_block install after_applying append_applied
    append_block save last_block get_block read_block path_beq bytes_beq hash_hex encode_to_string
    is_zero validator_set get_validator_set apply_genesis memory_db instance_p sign pending
    fill_bytes address_from_hex decode_string collect apply_block
produces = (refl, refl)

abbrev key_six : PrivateKey
key_six = record { public_key = record { x = 6; y = 0 }; d = 6 }

abbrev node_two : Node
node_two = record node_one { pool = record { txs = []; max = 2 } }

node_two-IsLevel : IsLevel world key_six (b'6' ∷ []) node_one node_two made_block
unfolding read_block path_beq bytes_beq hash_hex encode_to_string is_zero signs_twice new_block
    hash_bytes instance_p block_hash lookup add64
node_two-IsLevel = record {
  idle = record { unlocked = refl; free = refl };
  state = refl;
  tip = refl;
  unknown = refl;
  once = refl;
}

on_new_block-produce_example :
    Agrees world key_six (b'6' ∷ []) node_one node_two made_block produced_one
on_new_block-produce_example =
    on_new_block-produce world key_six (b'6' ∷ []) node_one node_two made_block 4 produced_one
      node_one-IsIdle produces.0 produces.1 node_two-IsLevel
