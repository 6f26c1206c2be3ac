-- ===== src/Node/Starting/Fresh.antt =====
-- A node from an empty directory: `-init`, then `-run`.
use mathlib.Core.Option.{some-injective}
use chainlang.Prelude.{
  ℕ, ◌≡◌, refl, ap, sym, ◌∙◌, subst, Bool, true, false, Option, none, some, [], ◌∷◌, Bytes, All,
  arith, value_or,
}
use chainlang.Config.{default_chain_config}
use chainlang.Crypto.Primitives.{PrivateKey}
use chainlang.Crypto.Hash.{is_zero}
use chainlang.Crypto.Signature.{pubkey_to_address}
use chainlang.LevelDb.{Db, WritesBatches, not_found}
use chainlang.Core.Types.{Block, genesis_block}
use chainlang.Core.Types.Validity.{validate_block-new_block}
use chainlang.Core.Files.{Disk, GenesisFile, genesis_path}
use chainlang.Core.Genesis.{
  genesis_of, write_encoded, write_genesis_file, load_genesis_from_file, parse_genesis,
}
use chainlang.Core.Chain.{Chain, held_by_readers, returned}
use chainlang.Core.Chain.Appending.{Appended, append_block-Appended}
use chainlang.Core.Chain.Growing.{IsStamped, IsStamped-valid}
use chainlang.Core.Chain.Loading.{new_chain}
use chainlang.Core.Chain.Restarting.{new_chain-append_block}
use chainlang.Core.Chain.Reliable.{IsReliable}
use chainlang.State.Store.{
  State, balance_key, nonce_key, decode_number, get_balance_locked, get_nonce_locked,
}
use chainlang.State.Genesis.Balances.{
  allocated, allocated-IsWord, allocated-congr, apply_genesis-balance, apply_genesis-nonce,
}
use chainlang.State.Ledger.Loading.{stored_balance, stored_nonce}
use chainlang.State.Ledger.Soundness.{HoldsWords}
use chainlang.State.Ledger.Writing.{IsWord}
use chainlang.Node.Session.History.Growth.{Keeps}
use chainlang.Node.Starting.{Machine, DataDir, checked, done, ensure_genesis, only_validator}
use chainlang.Node.Starting.Inversion.{Initialised}
use chainlang.Node.Starting.Soundness.{new_chain-IsLoaded, IsLoaded, Holds}

-- The packages keep, restore and tell apart what is written, disk and database take it, and a database that is opened again
-- has what was stored.
pub record Trusted (m : Machine) : Type 0 where
  pub keeps : Keeps m.p m.json m.os
  pub reliable : IsReliable m.json m.os
  pub makes_dirs : (d : Disk) → m.os.make_dirs d ≡ true
  pub reads_meta :
      (height : ℕ) (last text : Bytes)
      → m.json.marshal_meta height last ≡ some text
      → m.json.unmarshal_meta text ≡ some (height, last)
  pub reads_genesis :
      (g : GenesisFile) (text : Bytes)
      → m.json.marshal_genesis g ≡ some text
      → m.json.unmarshal_genesis text ≡ some g
  pub reopens : (db : Db) → m.open_file db ≡ some db
  pub writes_batches : WritesBatches m.store

-- The balances that the configuration allocates.
abbrev pub genesis_balances : Bytes → ℕ
genesis_balances = allocated (λ _. 0) default_chain_config.genesis

genesis-IsWord : All (λ (entry : Bytes × ℕ). IsWord entry.1) default_chain_config.genesis
unfolding default_chain_config
genesis-IsWord = (omega arith, (omega arith, (omega arith, tt)))

returned_injective :
    {c : Chain} {r : Chain × Bool} → returned r ≡ returned (c, true) → r ≡ (c, true)
returned_injective e = cc e

module _ (m : Machine) (trusted : Trusted m) where
  pub written-loads :
      (d files : Disk) (g : GenesisFile) (o : Option Bytes)
      → m.json.marshal_genesis g ≡ o
      → write_encoded m.os d o ≡ (files, true)
      → load_genesis_from_file m.json files ≡ some g
  unfolding load_genesis_from_file
  written-loads d files g none e writes = cc writes
  written-loads d files g (some text) e writes =
      let good = trusted.keeps.files.write-read d genesis_path text (ap (λ r. r.1) writes) in
      let there : files genesis_path ≡ some text =
        ap (λ (r : Disk × Bool). r.0 genesis_path) (sym writes) ∙ good in
      ap (parse_genesis m.json) there ∙ trusted.reads_genesis g text e

  pub write_genesis_file-loads :
      (d files : Disk) (addr : Bytes) (key : PrivateKey)
      → write_genesis_file m.p m.json m.os d default_chain_config addr (only_validator m key ∷ [])
        ≡ (files, true)
      → load_genesis_from_file m.json files
        ≡ some (genesis_of m.p default_chain_config addr (only_validator m key ∷ []))
  unfolding write_genesis_file
  write_genesis_file-loads d files addr key writes =
      let g = genesis_of m.p default_chain_config addr (only_validator m key ∷ []) in
      written-loads d files g (m.json.marshal_genesis g) refl (rw (trusted.makes_dirs d) at writes)

  pub ensure_genesis_ends :
      (c : Chain) (db : Db) (g : GenesisFile)
      → is_zero c.last_hash ≡ false
      → ensure_genesis m c db g ≡ done (c, db)
  unfolding ensure_genesis
  ensure_genesis_ends c db g e = rw e refl

  module _ (before dir : DataDir) (init : Initialised m before dir) where
    abbrev pub genesis : Block
    genesis = genesis_block m.p (pubkey_to_address m.p (some init.key.public_key))

    pub genesis_valid : IsStamped m.p genesis
    genesis_valid =
        let addr = pubkey_to_address m.p (some init.key.public_key) in
        IsStamped-valid m.p trusted.keeps.digests genesis
          (validate_block-new_block m.p 0 0 [] addr []).1

    pub init-IsLoaded : IsLoaded init.files init.c
    init-IsLoaded =
        subst (λ o. Holds (IsLoaded init.files) (checked o)) init.creates
          (new_chain-IsLoaded m.json m.os init.files default_chain_config)

    pub appended : Appended m.json init.c genesis (init.appended, true)
    appended =
        let free = init-IsLoaded.0 in
        let (r, returns, a) =
          append_block-Appended m.json m.os trusted.keeps.files genesis
            (trusted.keeps.restores genesis) init.c free genesis_valid.bytes in
        subst (Appended m.json init.c genesis) (returned_injective (sym returns ∙ init.appends)) a

    -- The chain that is found in the directory.
    abbrev pub tipped : Chain
    tipped = record {
      mu = held_by_readers 0;
      disk = init.appended.disk;
      cfg = default_chain_config;
      height = genesis.height;
      last_hash = genesis.hash;
    }

    pub new_chain-tipped : new_chain m.json m.os dir.files (some default_chain_config) ≡ some tipped
    new_chain-tipped =
        ap (λ d. new_chain m.json m.os d (some default_chain_config)) init.left_files
        ∙ new_chain-append_block m.json m.os trusted.keeps.files genesis init.c init.appended
            default_chain_config trusted.reads_meta init.appends
            (trusted.makes_dirs init.appended.disk)

    abbrev pub opened : State
    opened = record { db = init.applied.db; cfg = default_chain_config }

    allocation_read : init.g.allocation ≡ default_chain_config.genesis
    allocation_read =
        ap (λ (g : GenesisFile). g.allocation)
          (some-injective _ _ (
            sym init.loads
            ∙ write_genesis_file-loads before.files init.files
                (pubkey_to_address m.p (some init.key.public_key)) init.key init.writes))

    module _ (empty : (k : Bytes) → before.db.get k ≡ not_found) where
      abbrev unused : State
      unused = record { db = init.stored; cfg = default_chain_config }

      unused-get : (k : Bytes) → init.stored.get k ≡ not_found
      unused-get k =
          ap (λ (db : Db). db.get k)
            (some-injective _ _ (sym init.opens ∙ trusted.reopens before.db))
          ∙ empty k

      pub opened-balance : (a : Bytes) → stored_balance opened a ≡ genesis_balances a
      unfolding get_balance_locked decode_number
      opened-balance a =
          apply_genesis-balance m.p m.store trusted.writes_batches unused init.g.allocation
            init.g.validators a
            (subst (λ l. All (λ (entry : Bytes × ℕ). IsWord entry.1) l) (sym allocation_read)
              genesis-IsWord)
            init.applies
          ∙ ap (λ l. allocated (stored_balance unused) l a) allocation_read
          ∙ allocated-congr default_chain_config.genesis (stored_balance unused) (λ _. 0) a
              (ap (λ f. value_or 0 (decode_number f)) (unused-get (balance_key a)))

      opened-nonce : (a : Bytes) → stored_nonce opened a ≡ 0
      unfolding get_nonce_locked decode_number
      opened-nonce a =
          apply_genesis-nonce m.p m.store trusted.writes_batches unused init.g.allocation
            init.g.validators a (ap (λ f. value_or 0 (decode_number f)) (unused-get (nonce_key a)))
            init.applies

      pub opened-HoldsWords : HoldsWords opened
      opened-HoldsWords = record {
        balances = λ a.
            subst IsWord (sym (opened-balance a)) (
              allocated-IsWord default_chain_config.genesis (λ _. 0) a genesis-IsWord
                (omega arith));
        nonces = λ a. subst IsWord (sym (opened-nonce a)) (omega arith);
      }
