-- ===== src/Tests/Lifetime.antt =====
-- An empty directory, `-init` and `-run` on it, and the events of a day.
use chainlang.Prelude.{◌≡◌, ◌⊎◌, refl, true, some, [], ◌∷◌, arith, bytes_beq}
use chainlang.Config.{default_chain_config}
use chainlang.Crypto.Hash.{is_zero}
use chainlang.Crypto.Keyfile.{save_key, load_key}
use chainlang.Crypto.Primitives.{PrivateKey}
use chainlang.Crypto.Signature.{address_from_hex, pubkey_to_address}
use chainlang.Go.Hex.{decode_string, encode_to_string}
use chainlang.Go.Natural.{big_bytes}
use chainlang.LevelDb.{memory_db, memory_db-WritesBatches}
use chainlang.Core.Types.{genesis_block, block_hash}
use chainlang.Core.Genesis.{write_genesis_file, load_genesis_from_file}
use chainlang.Core.Chain.{append_block, save}
use chainlang.Core.Chain.Growing.{Weakness}
use chainlang.Core.Chain.Loading.{new_chain}
use chainlang.State.Store.{open_state}
use chainlang.State.Genesis.{apply_genesis}
use chainlang.Node.{World, Node}
use chainlang.Node.Session.{after_events}
use chainlang.Node.Starting.{Machine, DataDir, done, run_init, start, ensure_genesis}
use chainlang.Node.Starting.Fresh.{Trusted}
use chainlang.Node.Starting.Lifetime.{Accounted, after_events-run_init}
use chainlang.Tests.Encoding.{
  block_json, block_json-IsReliable, block_json_reads_meta, block_json_reads_genesis, byte_p,
}
use chainlang.Tests.Instance.{instance_p}
use chainlang.Tests.Disk.{path_beq}
use chainlang.Tests.Running.{node_one}
use chainlang.Tests.Growing.{byte_world, byte_world-Keeps, busy_day}
use chainlang.Node.Starting.Success.{IsHealthy}
use chainlang.Node.Starting.Running.{start-run_init}
use chainlang.Tests.Instance.{key_five}
use chainlang.Tests.Commands.{memory_keys-KeepsKeys, machine, empty_dir, no_dial, result_or}

abbrev byte_machine : Machine
byte_machine = record machine { p = byte_p; json = block_json }

byte_machine-Trusted : Trusted byte_machine
byte_machine-Trusted = record {
  keeps = byte_world-Keeps;
  reliable = block_json-IsReliable;
  makes_dirs = λ d. refl;
  reads_meta = block_json_reads_meta;
  reads_genesis = block_json_reads_genesis;
  reopens = λ db. refl;
  writes_batches = memory_db-WritesBatches;
}

abbrev made_dir : DataDir
made_dir = result_or empty_dir (run_init byte_machine empty_dir)

abbrev running : World × Node
running = result_or (byte_world, node_one) (start byte_machine true no_dial [] (b':' ∷ []) made_dir)

inits : run_init byte_machine empty_dir ≡ done made_dir
unfolding run_init save_key write_genesis_file load_genesis_from_file new_chain append_block
    apply_genesis instance_p block_json path_beq memory_db open_state
inits = refl

starts : start byte_machine true no_dial [] (b':' ∷ []) made_dir ≡ done (running.0, running.1)
unfolding start run_init save_key load_key write_genesis_file load_genesis_from_file new_chain
    append_block apply_genesis ensure_genesis instance_p is_zero path_beq bytes_beq save
    default_chain_config memory_db address_from_hex decode_string genesis_block block_hash
    encode_to_string big_bytes block_json byte_p open_state
starts = refl

after_events-run_init_example :
    ((key : PrivateKey) × (byte_machine.generated ≡ some key)
      × Accounted running.0
          (genesis_block byte_p (pubkey_to_address byte_p (some key.public_key)))
          running.1
          (after_events running.0 running.1 busy_day))
    ⊎ Weakness byte_p
after_events-run_init_example =
    after_events-run_init byte_machine byte_machine-Trusted empty_dir made_dir true no_dial []
      (b':' ∷ []) running.0 running.1 busy_day (λ k. refl) inits starts
      (refl, (refl, (refl, (refl, tt)))) (omega arith)

byte_machine-IsHealthy : IsHealthy byte_machine key_five
unfolding block_json memory_db
byte_machine-IsHealthy = record {
  generated = refl;
  number = refl;
  keeps_keys = memory_keys-KeepsKeys;
  writes_keys = λ disk path text. refl;
  marshals_keys = λ k. refl;
  marshals_genesis = λ g. refl;
  commits = λ db ops. refl;
  misses = λ d q e. refl;
}

start-run_init_example :
    (dir : DataDir) × (run_init byte_machine empty_dir ≡ done dir)
    × (((made : World × Node) × (start byte_machine true no_dial [] (b':' ∷ []) dir ≡ done made))
        ⊎ Weakness byte_p)
start-run_init_example =
    start-run_init byte_machine key_five byte_machine-Trusted byte_machine-IsHealthy empty_dir
      no_dial [] (b':' ∷ []) refl
