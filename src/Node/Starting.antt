-- ===== src/Node/Starting.antt =====
-- cmd/node/main.go, `runInit`, `runInitJoin` and the start of `runNodeLoop`: how a data directory is
-- made, and how a node comes from one. What a failed command leaves in the directory is not kept.
pub mod Soundness
pub mod Frozen
pub mod Inversion
pub mod Flags
pub mod Fresh
pub mod Lifetime
pub mod Success
pub mod Running
use chainlang.Prelude.{
  ◌/◌, Bool, true, false, not, Option, none, some, List, [], ◌∷◌, Bytes, if◌then◌else◌,
}
use chainlang.Go.Word.{pos}
use chainlang.Config.{ValidatorGenesis, default_chain_config, min_stake}
use chainlang.Crypto.Primitives.{Primitives, PrivateKey}
use chainlang.Crypto.Hash.{is_zero}
use chainlang.Crypto.Signature.{pubkey_to_address, address_hex}
use chainlang.Crypto.Keyfile.{KeyDisk, KeyStore, save_key, load_key}
use chainlang.LevelDb.{Db, LevelDb}
use chainlang.Core.Types.{Block, genesis_block}
use chainlang.Core.Files.{Disk, Os, Json, GenesisFile, genesis_path}
use chainlang.Core.Genesis.{write_genesis_file, load_genesis_from_file}
use chainlang.Core.Chain.{Chain, Outcome, returned, blocked, append_block}
use chainlang.Core.Chain.Loading.{new_chain}
use chainlang.State.Store.{State, open_state}
use chainlang.State.Genesis.{apply_genesis}
use chainlang.Mempool.{new}
use chainlang.P2p.Peers.{Conn, new_peer_set, connect_to_seeds}
use chainlang.Node.{World, Node}

-- What a command is given: the packages it calls, what `leveldb.OpenFile` makes of a stored database
-- (`none` is an error), and what one call of `crypto.GenerateKey` returns.
pub record Machine : Type 0 where
  pub p : Primitives
  pub json : Json
  pub os : Os
  pub store : LevelDb
  pub keys : KeyStore
  pub open_file : Db → Option Db
  pub generated : Option PrivateKey
  pub key_path : Bytes

-- The data directory: the files of the chain and genesis.json, the database, and the key files.
pub record DataDir : Type 0 where
  pub files : Disk
  pub db : Db
  pub key_disk : KeyDisk

-- A command goes on, ends with an error, ends in a panic on a nil pointer, or waits for ever.
pub data Attempt {ℓ} (A : Type ℓ) : Type ℓ where
  done : A → Attempt A
  refused : Attempt A
  panicked : Attempt A
  waited : Attempt A

infixl 5 ◌and_run◌
abbrev pub ◌and_run◌ {ℓ κ} : {A : Type ℓ} {B : Type κ} → Attempt A → (A → Attempt B) → Attempt B
(done a) and_run next = next a
refused and_run next = refused
panicked and_run next = panicked
waited and_run next = waited

-- `if err != nil { return err }`
abbrev pub checked {ℓ} : {A : Type ℓ} → Option A → Attempt A
checked none = refused
checked (some a) = done a

abbrev pub succeeded {ℓ} : {A : Type ℓ} → A × Bool → Attempt A
succeeded (a, true) = done a
succeeded (a, false) = refused

-- The use of a pointer.
abbrev pub pointed {ℓ} : {A : Type ℓ} → Option A → Attempt A
pointed none = panicked
pointed (some a) = done a

abbrev pub called {ℓ} : {A : Type ℓ} → Outcome (A × Bool) → Attempt A
called blocked = waited
called (returned r) = succeeded r

-- The block of a genesis file whose error is dropped.
abbrev pub block_of : Option GenesisFile → Option Block
block_of none = none
block_of (some g) = g.block

module _ (m : Machine) where
  -- `state.Open` with the default configuration.
  abbrev pub opened_state : Db → Attempt State
  opened_state db = checked (open_state m.open_file db (some default_chain_config))

  abbrev pub append_genesis : Chain → Option Block → Attempt Chain
  append_genesis c o = pointed o and_run λ b. called (append_block m.json m.os c b)

  -- What all three commands do with a new chain: genesis is applied, and its block appended.
  abbrev pub apply_file : Chain → State → GenesisFile → Attempt State
  apply_file c s g = succeeded (apply_genesis m.p m.store s g.allocation g.validators)

  -- "Ensure genesis is applied and chain has genesis block"
  unfoldable pub ensure_genesis : Chain → Db → GenesisFile → Attempt (Chain × Db)
  unfolding apply_genesis append_block load_genesis_from_file
  ensure_genesis c db g =
      if not (is_zero c.last_hash)
      then done (c, db)
      else opened_state db and_run λ s. apply_file c s g and_run λ applied.
          append_genesis c (block_of (load_genesis_from_file m.json c.disk)) and_run λ appended.
          done (appended, applied.db)

  abbrev pub world_of : PrivateKey → Bytes → GenesisFile → World
  world_of key listen g = record {
    p = m.p;
    json = m.json;
    os = m.os;
    store = m.store;
    key = key;
    listen = listen;
    allocation = g.allocation;
    validators = g.validators;
  }

  abbrev pub first_node : (Bytes → Option Conn) → List Bytes → Bytes → Chain → State → Node
  first_node dial seeds listen c s = record {
    block_mu = false;
    chain = c;
    state = s;
    pool = new (pos (default_chain_config.block_size_limit / 500));
    peers = connect_to_seeds dial (new_peer_set 50 seeds listen);
    signed = [];
    sent = [];
  }

  -- `runNodeLoop` up to its loops. `listens` says whether the listener could be opened.
  unfoldable pub start :
      Bool → (Bytes → Option Conn) → List Bytes → Bytes → DataDir → Attempt (World × Node)
  unfolding ensure_genesis new_chain load_genesis_from_file load_key
  start listens dial seeds listen data_dir =
      checked (new_chain m.json m.os data_dir.files (some default_chain_config)) and_run λ c.
      checked (load_genesis_from_file m.json c.disk) and_run λ g.
      ensure_genesis c data_dir.db g and_run λ ensured. opened_state ensured.1 and_run λ s.
      checked (load_key m.keys data_dir.key_disk m.key_path) and_run λ loaded.
      pointed loaded and_run λ key.
      pointed (block_of (load_genesis_from_file m.json ensured.0.disk)) and_run λ genesis.
      if listens
      then done (world_of key listen g, first_node dial seeds listen ensured.0 s)
      else refused

  -- The address of the key, with the least stake.
  abbrev pub only_validator : PrivateKey → ValidatorGenesis
  only_validator key = record {
    address = address_hex (pubkey_to_address m.p (some key.public_key));
    stake = min_stake;
  }

  -- `runInit`
  unfoldable pub run_init : DataDir → Attempt DataDir
  unfolding write_genesis_file load_genesis_from_file apply_genesis append_block new_chain save_key
  run_init data_dir =
      if not (m.os.make_dirs data_dir.files)
      then refused
      else checked m.generated and_run λ key.
          let addr = pubkey_to_address m.p (some key.public_key) in
          succeeded (save_key m.keys data_dir.key_disk m.key_path (some key)) and_run λ key_disk.
          succeeded (
            write_genesis_file m.p m.json m.os data_dir.files default_chain_config addr
              (only_validator key ∷ []))
          and_run λ files. opened_state data_dir.db and_run λ s.
              checked (load_genesis_from_file m.json files) and_run λ g.
              succeeded (apply_genesis m.p m.store s g.allocation g.validators) and_run λ applied.
              checked (new_chain m.json m.os files (some default_chain_config)) and_run λ c.
              called (append_block m.json m.os c (genesis_block m.p addr)) and_run λ appended.
              done (record { files = appended.disk; db = applied.db; key_disk = key_disk })

  -- `runInitJoin`, with what reading the other node's genesis.json gave.
  unfoldable pub run_init_join : Option Bytes → DataDir → Attempt DataDir
  unfolding load_genesis_from_file apply_genesis append_block new_chain save_key
  run_init_join joined data_dir =
      if not (m.os.make_dirs data_dir.files)
      then refused
      else checked joined and_run λ text.
          succeeded (m.os.write_file data_dir.files genesis_path text) and_run λ files.
          checked (load_genesis_from_file m.json files) and_run λ g.
          checked m.generated and_run λ key.
          succeeded (save_key m.keys data_dir.key_disk m.key_path (some key)) and_run λ key_disk.
          opened_state data_dir.db and_run λ s.
          succeeded (apply_genesis m.p m.store s g.allocation g.validators) and_run λ applied.
          checked (new_chain m.json m.os files (some default_chain_config)) and_run λ c.
          pointed (block_of (load_genesis_from_file m.json files)) and_run λ genesis.
          called (append_block m.json m.os c genesis) and_run λ appended.
          done (record { files = appended.disk; db = applied.db; key_disk = key_disk })
