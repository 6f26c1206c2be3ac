-- ===== src/Node/Starting/Success.antt =====
-- `-init` and `-run` go through where no package fails.
use chainlang.Prelude.{
  ◌≡◌, refl, ap, ◌∙◌, Bool, true, false, not, Option, none, some, List, [], ◌∷◌, Bytes, is_some,
  nat_beq, if◌then◌else◌,
}
use chainlang.Config.{default_chain_config}
use chainlang.Crypto.Primitives.{PrivateKey}
use chainlang.Crypto.Hash.{zero_hash}
use chainlang.Crypto.Keyfile.{KeyDisk, save_key, write_key, key_file, KeyFile}
use chainlang.Crypto.Keyfile.RoundTrip.{KeepsKeys}
use chainlang.Crypto.Signature.{pubkey_to_address}
use chainlang.LevelDb.{Db, BatchOp}
use chainlang.Core.Types.{Block, genesis_block}
use chainlang.Core.Files.{Disk, FilePath, GenesisFile, meta_path, genesis_path}
use chainlang.Core.Genesis.{genesis_of, write_encoded, write_genesis_file}
use chainlang.Core.Chain.{Chain, held_by_readers, append_block}
use chainlang.Core.Chain.Free.{IsFree, append_block-Advanced}
use chainlang.Core.Chain.Loading.{new_chain, from_meta}
use chainlang.Core.Chain.Reliable.{append_block_succeeds}
use chainlang.State.Store.{State, open_state-opens, commit_succeeds}
use chainlang.State.Genesis.{apply_genesis, genesis_batch}
use chainlang.Node.Starting.{
  Machine, DataDir, Attempt, done, refused, ◌and_run◌, checked, succeeded, called, opened_state,
  only_validator, run_init,
}
use chainlang.Node.Starting.Fresh.{Trusted, write_genesis_file-loads}

-- A key is generated, with a number that is not 0; the key files are kept, and no write of them fails;
-- JSON can encode a genesis file, LevelDB takes every batch, and what is not there is missing.
pub record IsHealthy (m : Machine) (key : PrivateKey) : Type 0 where
  pub generated : m.generated ≡ some key
  pub number : nat_beq key.d 0 ≡ false
  pub keeps_keys : KeepsKeys m.keys
  pub writes_keys :
      (disk : KeyDisk) (path text : Bytes) → (m.keys.write_file disk path text).1 ≡ true
  pub marshals_keys : (k : KeyFile) → is_some (m.keys.marshal_indent k) ≡ true
  pub marshals_genesis : (g : GenesisFile) → is_some (m.json.marshal_genesis g) ≡ true
  pub commits : (db : Db) (ops : List BatchOp) → is_some (m.store.write db ops) ≡ true
  pub misses : (d : Disk) (q : FilePath) → d q ≡ none → m.os.is_missing d q ≡ true

module _ {ℓ κ} {A : Type ℓ} {B : Type κ} where
  pub then-done :
      (next : A → Attempt B) {x : Attempt A} {a : A} {b : B}
      → x ≡ done a
      → next a ≡ done b
      → x and_run next ≡ done b
  then-done next e f = ap (λ y. y and_run next) e ∙ f

module _ {ℓ} {A : Type ℓ} where
  pass-done :
      (t : Bool) (x : Attempt A) {a : A}
      → t ≡ true
      → x ≡ done a
      → (if not t then refused else x) ≡ done a
  pass-done true x e f = f
  pass-done false x e f = cc e

  good_pair : (r : A × Bool) → r.1 ≡ true → r ≡ (r.0, true)
  good_pair (a, true) e = refl
  good_pair (a, false) e = cc e

  succeeded-good : (r : A × Bool) → r.1 ≡ true → succeeded r ≡ done r.0
  succeeded-good r e = ap succeeded (good_pair r e)

module _ (m : Machine) (key : PrivateKey) (trusted : Trusted m) (healthy : IsHealthy m key) where
  save_key_succeeds : (disk : KeyDisk) → (save_key m.keys disk m.key_path (some key)).1 ≡ true
  unfolding save_key
  save_key_succeeds disk =
      go (m.keys.marshal_indent (key_file key)) (healthy.marshals_keys (key_file key))
    where
      go : (o : Option Bytes) → is_some o ≡ true → (write_key m.keys disk m.key_path o).1 ≡ true
      go none e = cc e
      go (some text) e = healthy.writes_keys disk m.key_path text

  abbrev addr : Bytes
  addr = pubkey_to_address m.p (some key.public_key)

  abbrev first_file : GenesisFile
  first_file = genesis_of m.p default_chain_config addr (only_validator m key ∷ [])

  abbrev first_write : Disk → Disk × Bool
  first_write d =
      write_genesis_file m.p m.json m.os d default_chain_config addr (only_validator m key ∷ [])

  write_encoded_succeeds :
      (d : Disk) (o : Option Bytes)
      → is_some o ≡ true
      → ((write_encoded m.os d o).1 ≡ true) × ((write_encoded m.os d o).0 meta_path ≡ d meta_path)
  write_encoded_succeeds d none e = cc e
  write_encoded_succeeds d (some text) e = (
    trusted.reliable.writes d genesis_path text,
    trusted.keeps.files.write-other d genesis_path text meta_path (λ e. cc e),
  )

  first_write_succeeds :
      (d : Disk) → ((first_write d).1 ≡ true) × ((first_write d).0 meta_path ≡ d meta_path)
  unfolding write_genesis_file
  first_write_succeeds d = rw (trusted.makes_dirs d) (
      write_encoded_succeeds d (m.json.marshal_genesis first_file)
        (healthy.marshals_genesis first_file))

  apply_genesis_succeeds :
      (s : State) (g : GenesisFile)
      → (apply_genesis m.p m.store s g.allocation g.validators).1 ≡ true
  unfolding apply_genesis
  apply_genesis_succeeds s g =
      let batch = genesis_batch m.p s.cfg g.allocation g.validators in
      commit_succeeds m.store s batch (healthy.commits s.db batch)

  -- The chain of a directory with no chain.json.
  abbrev empty_chain : Disk → Chain
  empty_chain d = record {
    mu = held_by_readers 0;
    disk = d;
    cfg = default_chain_config;
    height = 0;
    last_hash = zero_hash;
  }

  new_chain-empty :
      (d : Disk)
      → d meta_path ≡ none
      → new_chain m.json m.os d (some default_chain_config) ≡ some (empty_chain d)
  unfolding new_chain
  new_chain-empty d e = rw (trusted.makes_dirs d) (
      ap (from_meta m.json m.os d default_chain_config) e
      ∙ ap (λ t. if t then some (empty_chain d) else none) (healthy.misses d meta_path e))

  append_succeeds :
      (c : Chain) (b : Block)
      → IsFree c
      → (r : Chain) × (called (append_block m.json m.os c b) ≡ done r)
  append_succeeds c b free =
      let (r, returns, advanced) = append_block-Advanced m.json m.os c free b in
      let good =
        append_block_succeeds m.json m.os trusted.keeps.files trusted.reliable b c r returns in
      (r.0, ap called returns ∙ succeeded-good r good)

  pub opens_state :
      (db : Db) → opened_state m db ≡ done (record { db = db; cfg = default_chain_config })
  opens_state db =
      ap checked (open_state-opens m.open_file db default_chain_config (trusted.reopens db))

  -- `-init` goes through.
  pub run_init_succeeds :
      (before : DataDir)
      → before.files meta_path ≡ none
      → (dir : DataDir) × (run_init m before ≡ done dir)
  unfolding run_init
  run_init_succeeds before fresh =
      let saved = save_key m.keys before.key_disk m.key_path (some key) in
      let written = first_write before.files in
      let (writes, kept) = first_write_succeeds before.files in
      let s : State = record { db = before.db; cfg = default_chain_config } in
      let applied = apply_genesis m.p m.store s first_file.allocation first_file.validators in
      let loads =
        write_genesis_file-loads m trusted before.files written.0 addr key
          (good_pair written writes) in
      let (appended, appends) =
        append_succeeds (empty_chain written.0) (genesis_block m.p addr) refl in
      (
        record { files = appended.disk; db = applied.0.db; key_disk = saved.0 },
        pass-done _ _ (trusted.makes_dirs before.files) (
            then-done _ (ap checked healthy.generated) (
              then-done _ (succeeded-good saved (save_key_succeeds before.key_disk)) (
                then-done _ (succeeded-good written writes) (
                  then-done _ (opens_state before.db) (
                    then-done _ (ap checked loads) (
                      then-done _ (succeeded-good applied (apply_genesis_succeeds s first_file)) (
                        then-done _ (ap checked (new_chain-empty written.0 (kept ∙ fresh)))
                          (then-done _ appends refl)))))))),
      )
