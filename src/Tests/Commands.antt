-- ===== src/Tests/Commands.antt =====
-- The commands on an empty directory: a key, a data directory, a node from it, and a transaction to it.
use mathlib.Core.Option.{some-injective}
use chainlang.Prelude.{
  ℕ, List, All, ◌<◌, ◌^◌, nat_eq, ◌≤◌, ◌≡◌, refl, ap, sym, ◌∙◌, true, Option, none, some, [], ◌∷◌,
  ◌++◌, Bytes, bytes_beq, bytes_beq_iff, arith, take, drop, length, nat_beq, if◌then◌else◌,
  take-append_length, drop-append_length,
}
use chainlang.Crypto.Keyfile.{KeyFile, KeyDisk, KeyStore, save_key, load_key}
use chainlang.Crypto.Keyfile.RoundTrip.{KeepsKeys, load_key-save_key}
use chainlang.Go.Hex.{decode_string, encode_to_string}
use chainlang.Go.Natural.{big_bytes}
use chainlang.Core.Types.{Transaction, genesis_block, block_hash}
use chainlang.Config.{default_chain_config}
use chainlang.Crypto.Hash.{is_zero}
use chainlang.Crypto.Signature.{address_from_hex, pubkey_to_address}
use chainlang.LevelDb.{memory_db, empty_db}
use chainlang.Core.Files.{Json}
use chainlang.Core.Genesis.{write_genesis_file, load_genesis_from_file}
use chainlang.Core.Chain.{append_block, save}
use chainlang.Core.Chain.Loading.{new_chain}
use chainlang.State.Genesis.{apply_genesis}
use chainlang.P2p.Peers.{Conn}
use chainlang.Node.{World, Node}
use chainlang.Node.Sending.{unsigned_tx}
use chainlang.Loadgen.{indices, run_load}
use chainlang.Loadgen.Indices.{indices-Distinct}
use chainlang.Loadgen.Acceptance.{run_load_bounded}
use chainlang.Go.Word.{set_bytes}
use chainlang.State.Store.{open_state}
use chainlang.Node.Starting.{Machine, DataDir, Attempt, done, run_init, start, ensure_genesis}
use chainlang.Tests.Hashing.{signed_tx, five}
use chainlang.Tests.Ledger.{allocation, fresh}
use chainlang.Tests.Disk.{height_json, memory_os, genesis, path_beq}
use chainlang.Tests.Running.{world, node_one}
use chainlang.Tests.Instance.{instance_p, key_five}

-- The three texts, two of them behind their lengths.
abbrev write_three : KeyFile → Bytes
write_three k = length k.d ∷ (k.d ++ length k.x ∷ (k.x ++ k.y))

abbrev read_two : Bytes → Bytes → Option KeyFile
read_two d [] = none
read_two d (n ∷ rest) = some (record { d = d; x = take n rest; y = drop n rest })

abbrev read_three : Bytes → Option KeyFile
read_three [] = none
read_three (n ∷ rest) = read_two (take n rest) (drop n rest)

abbrev pub memory_keys : KeyStore
memory_keys = record {
  write_file = λ disk path text. (λ q. if bytes_beq q path then some text else disk q, true);
  marshal_indent = λ k. some (write_three k);
  unmarshal = read_three;
}

read-write_three : (k : KeyFile) → read_three (write_three k) ≡ some k
read-write_three k =
    rw
      (
        take-append_length k.d (length k.x ∷ (k.x ++ k.y)),
        drop-append_length k.d (length k.x ∷ (k.x ++ k.y)),
        take-append_length k.x k.y,
        drop-append_length k.x k.y,
      )
      refl

pub memory_keys-KeepsKeys : KeepsKeys memory_keys
memory_keys-KeepsKeys = record {
  write-read = λ disk path text good. ground (arith, bytes_beq_iff path path);
  unmarshal-marshal =
      λ k text hd hx hy e. ap read_three (sym (some-injective _ _ e)) ∙ read-write_three k;
}

abbrev no_keys : KeyDisk
no_keys = λ path. none

abbrev key_path : Bytes
key_path = b'k' ∷ []

saved : (save_key memory_keys no_keys key_path (some key_five)).1 ≡ true
unfolding save_key
saved = refl

load_key-save_key_example :
    load_key memory_keys (save_key memory_keys no_keys key_path (some key_five)).0 key_path
    ≡ (if nat_beq key_five.d 0 then some none else some (some key_five))
load_key-save_key_example =
    load_key-save_key memory_keys memory_keys-KeepsKeys no_keys key_path key_five saved

-- Any genesis file is read as one of the block of Tests.Disk.
abbrev genesis_json : Json
genesis_json = record height_json {
  unmarshal_genesis =
      λ text. some (record { block = some genesis; allocation = allocation; validators = [] });
}

abbrev pub machine : Machine
machine = record {
  p = instance_p;
  json = genesis_json;
  os = memory_os;
  store = memory_db;
  keys = memory_keys;
  open_file = λ db. some db;
  generated = some key_five;
  key_path = key_path;
}

abbrev pub empty_dir : DataDir
empty_dir = record { files = λ p. none; db = empty_db; key_disk = no_keys }

abbrev pub result_or {ℓ} : {A : Type ℓ} → A → Attempt A → A
result_or a (done b) = b
result_or a _ = a

abbrev pub initialised : DataDir
initialised = result_or empty_dir (run_init machine empty_dir)

abbrev pub no_dial : Bytes → Option Conn
no_dial addr = none

abbrev pub began : World × Node
began = result_or (world, node_one) (start machine true no_dial [] (b':' ∷ []) initialised)

pub starts : start machine true no_dial [] (b':' ∷ []) initialised ≡ done (began.0, began.1)
unfolding start run_init save_key load_key write_genesis_file load_genesis_from_file new_chain
    append_block apply_genesis ensure_genesis instance_p is_zero path_beq bytes_beq save
    default_chain_config memory_db address_from_hex decode_string genesis_block block_hash
    encode_to_string big_bytes open_state
starts = refl

-- A node at which the address of key five has money.
abbrev funded_node : Node
funded_node = record node_one {
  state = (apply_genesis instance_p memory_db fresh ((encode_to_string five, 5_000) ∷ []) []).0;
  pool = record { txs = []; max = 2 };
}

abbrev made_tx : Transaction
made_tx = record (unsigned_tx instance_p key_five signed_tx.to 70 100 0) {
  signature = signed_tx.signature;
}

-- What the second of two goroutines sends of five.
abbrev sent_indices : List ℕ
sent_indices = indices 5 5 2 1

sent_indices-All : All (λ i. i < 2 ^ 64) sent_indices
unfolding indices
sent_indices-All = (omega arith, (omega arith, tt))

abbrev load_run : Attempt (Node × ℕ)
load_run =
    run_load world memory_keys (save_key memory_keys no_keys key_path (some key_five)).0 key_path 5
      sent_indices funded_node

abbrev loaded_node : Node × ℕ
loaded_node = result_or (node_one, 0) load_run

loads : load_run ≡ done (loaded_node.0, loaded_node.1)
unfolding run_load load_key save_key bytes_beq encode_to_string big_bytes decode_string
    pubkey_to_address instance_p address_from_hex set_bytes
loads = refl

run_load_bounded_example : (loaded_node.1 ≤ 1) × (loaded_node.0.state ≡ funded_node.state)
run_load_bounded_example =
    run_load_bounded world funded_node memory_keys
      (save_key memory_keys no_keys key_path (some key_five)).0 key_path 5 sent_indices
      loaded_node.0 loaded_node.1 sent_indices-All (indices-Distinct 5 2 5 1 (omega arith)) loads
