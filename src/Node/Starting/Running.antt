-- ===== src/Node/Starting/Running.antt =====
-- `-run` goes through on a directory that `-init` has made.
use mathlib.Core.Option.{some-injective}
use chainlang.Prelude.{
  ◌≡◌, ◌⊎◌, inl, inr, refl, ap, sym, ◌∙◌, subst, true, false, Option, none, some, List, [], ◌∷◌,
  Bytes, nat_beq, if◌then◌else◌,
}
use chainlang.Config.{default_chain_config}
use chainlang.Crypto.Primitives.{PrivateKey}
use chainlang.Crypto.Hash.{is_zero}
use chainlang.Crypto.Keyfile.{load_key}
use chainlang.Crypto.Keyfile.RoundTrip.{load_key-save_key}
use chainlang.Crypto.Signature.{pubkey_to_address}
use chainlang.Core.Types.{genesis_block}
use chainlang.Core.Files.{Disk, GenesisFile, meta_path, genesis_path}
use chainlang.Core.Genesis.{genesis_of, load_genesis_from_file, parse_genesis}
use chainlang.Core.Chain.Growing.{Weakness, nonzero_hash}
use chainlang.Core.Chain.Keeping.{append_block-genesis}
use chainlang.P2p.Peers.{Conn}
use chainlang.Node.{World, Node}
use chainlang.Node.Starting.{
  Machine, DataDir, done, checked, pointed, block_of, world_of, first_node, start, only_validator,
  run_init,
}
use chainlang.Node.Starting.Inversion.{Initialised, run_init-Initialised}
use chainlang.Node.Starting.Fresh.{
  Trusted, write_genesis_file-loads, ensure_genesis_ends, genesis, genesis_valid, tipped,
  new_chain-tipped, init-IsLoaded,
}
use chainlang.Node.Starting.Success.{IsHealthy, then-done, opens_state, run_init_succeeds}

module _ (m : Machine) (key : PrivateKey) (trusted : Trusted m) (healthy : IsHealthy m key)
    (before dir : DataDir) (init : Initialised m before dir) where
  abbrev file : GenesisFile
  file =
      genesis_of m.p default_chain_config (pubkey_to_address m.p (some init.key.public_key))
        (only_validator m init.key ∷ [])

  loads_file : load_genesis_from_file m.json init.appended.disk ≡ some file
  unfolding load_genesis_from_file
  loads_file =
      let addr = pubkey_to_address m.p (some init.key.public_key) in
      ap (parse_genesis m.json) (
        append_block-genesis m.json m.os trusted.keeps.files (genesis_block m.p addr) init.c
          (init.appended, true) init.appends
        ∙ ap (λ (d : Disk). d genesis_path) (init-IsLoaded m trusted before dir init).1)
      ∙ write_genesis_file-loads m trusted before.files init.files addr init.key init.writes

  same_key : key ≡ init.key
  same_key = some-injective _ _ (sym healthy.generated ∙ init.generated)

  loads_key : load_key m.keys dir.key_disk m.key_path ≡ some (some init.key)
  loads_key =
      ap (λ d. load_key m.keys d m.key_path) init.left_keys
      ∙ load_key-save_key m.keys healthy.keeps_keys before.key_disk m.key_path init.key init.saves
      ∙ ap (λ t. if t then some none else some (some init.key))
          (subst (λ (k : PrivateKey). nat_beq k.d 0 ≡ false) same_key healthy.number)

  start_succeeds :
      (dial : Bytes → Option Conn) (seeds : List Bytes) (listen : Bytes)
      → is_zero (genesis m trusted before dir init).hash ≡ false
      → (made : World × Node) × (start m true dial seeds listen dir ≡ done made)
  unfolding start
  start_succeeds dial seeds listen nonzero =
      let c = tipped m trusted before dir init in
      (
        (
          world_of m init.key listen file,
          first_node m dial seeds listen c (record { db = dir.db; cfg = default_chain_config }),
        ),
        then-done _ (ap checked (new_chain-tipped m trusted before dir init)) (
            then-done _ (ap checked loads_file) (
              then-done _ (ensure_genesis_ends m trusted c dir.db file nonzero) (
                then-done _ (opens_state m key trusted healthy dir.db) (
                  then-done _ (ap checked loads_key)
                    (then-done _ (ap (λ o. pointed (block_of o)) loads_file) refl))))),
      )

-- Where a key with a number other than 0 is generated, the directory has no chain.json, no call of os,
-- encoding/json, the key files or LevelDB fails, and all of them keep and read back what was written,
-- `-init` goes through, and `-run` on what it has made, with a free address to listen on, goes through
-- too; or, instead of the latter, there is a collision of SHA-256 or an input whose digest is zero.
pub start-run_init :
    (m : Machine) (key : PrivateKey) (trusted : Trusted m) (healthy : IsHealthy m key)
    (before : DataDir) (dial : Bytes → Option Conn) (seeds : List Bytes) (listen : Bytes)
    → before.files meta_path ≡ none
    → (dir : DataDir) × (run_init m before ≡ done dir)
      × (((made : World × Node) × (start m true dial seeds listen dir ≡ done made)) ⊎ Weakness m.p)
start-run_init m key trusted healthy before dial seeds listen fresh =
    let (dir, inits) = run_init_succeeds m key trusted healthy before fresh in
    let init = run_init-Initialised m before dir inits in
    let one = genesis m trusted before dir init in
    (
      dir,
      inits,
      elim (nonzero_hash m.p one (genesis_valid m trusted before dir init).valid) [
        | inr weak ↦ inr weak
        | inl nonzero ↦
            inl (start_succeeds m key trusted healthy before dir init dial seeds listen nonzero)
      ],
    )
