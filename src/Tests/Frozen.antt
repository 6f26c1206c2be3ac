-- ===== src/Tests/Frozen.antt =====
-- A node that was started, takes one block of a peer, and hears more.
use chainlang.Prelude.{◌≡◌, ◌++◌, refl, true, List, [], ◌∷◌, bytes_beq}
use chainlang.Config.{default_chain_config}
use chainlang.Crypto.Hash.{is_zero, hash_bytes, hash_hex}
use chainlang.Crypto.Keyfile.{save_key, load_key}
use chainlang.Crypto.Merkle
use chainlang.Crypto.Signature.{address_from_hex}
use chainlang.Go.Hex.{decode_string, encode_to_string}
use chainlang.Go.Natural.{big_bytes}
use chainlang.LevelDb.{memory_db}
use chainlang.Prelude.Map.{lookup}
use chainlang.Core.Types.{Block, genesis_block, block_hash}
use chainlang.Core.Types.Validity.{validate_block-new_block}
use chainlang.Core.Genesis.{write_genesis_file, load_genesis_from_file}
use chainlang.Core.Chain.{append_block, save, read_block}
use chainlang.Core.Chain.Loading.{new_chain}
use chainlang.State.Store.{open_state}
use chainlang.State.Genesis.{apply_genesis}
use chainlang.State.Validators.{get_validator_set, collect}
use chainlang.Node.{validator_set, signs_twice}
use chainlang.Node.Receiving.Outcome.{IsIdle, IsAcceptable}
use chainlang.Node.Session.{
  Event, received, ticked, woken, new_block, new_tx, occur, handle, after_events,
}
use chainlang.Node.Session.Stopped.{SameLedger, on_new_block_stops}
use chainlang.Node.Starting.{run_init, start, ensure_genesis}
use chainlang.Node.Starting.Frozen.{start-SameLedger}
use chainlang.Tests.Instance.{instance_p}
use chainlang.Tests.Hashing.{signed_tx, five}
use chainlang.Tests.Ledger.{applied}
use chainlang.Tests.Disk.{path_beq, genesis}
use chainlang.Tests.Commands.{machine, no_dial, initialised, began, starts}
use chainlang.Core.Types as Types

-- A block after the one of the genesis file.
abbrev announced : Block
announced = Types.new_block instance_p 0 1 genesis.hash five []

began-IsIdle : IsIdle began.1
unfolding start run_init save_key load_key write_genesis_file load_genesis_from_file new_chain
    append_block apply_genesis ensure_genesis instance_p is_zero path_beq bytes_beq save
    default_chain_config memory_db address_from_hex decode_string genesis_block block_hash
    encode_to_string big_bytes open_state
began-IsIdle = record { unlocked = refl; free = refl }

announced-IsAcceptable : IsAcceptable began.0 began.1 announced
unfolding start run_init save_key load_key write_genesis_file load_genesis_from_file new_chain
    append_block apply_genesis ensure_genesis instance_p is_zero path_beq bytes_beq save
    default_chain_config memory_db address_from_hex decode_string genesis_block block_hash
    encode_to_string big_bytes open_state read_block hash_hex validator_set get_validator_set
    signs_twice Types.new_block hash_bytes collect lookup Merkle.merkle_root
announced-IsAcceptable = record {
  valid = (validate_block-new_block instance_p 0 1 genesis.hash five []).0;
  unknown = refl;
  in_turn = refl;
  once = refl;
  follows = refl;
}

abbrev morning : List Event
morning = received 10 no_dial (new_block announced) ∷ []

abbrev evening : List Event
evening = received 10 no_dial (new_tx signed_tx) ∷ ticked 8 ∷ woken ∷ []

stops : (after_events began.0 began.1 morning).block_mu ≡ true
unfolding occur handle start run_init save_key load_key write_genesis_file load_genesis_from_file
    new_chain append_block apply_genesis ensure_genesis instance_p is_zero path_beq bytes_beq save
    default_chain_config memory_db address_from_hex decode_string genesis_block block_hash
    encode_to_string big_bytes open_state
stops =
    (on_new_block_stops began.0 began.1 announced [] began-IsIdle announced-IsAcceptable
      (applied began.1.state announced)).2.held

start-SameLedger_example :
    SameLedger
      (after_events began.0 began.1 morning)
      (after_events began.0 began.1 (morning ++ evening))
start-SameLedger_example =
    start-SameLedger machine true no_dial [] (b':' ∷ []) initialised began.0 began.1 morning evening
      starts stops
