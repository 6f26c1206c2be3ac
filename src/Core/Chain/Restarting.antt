-- ===== src/Core/Chain/Restarting.antt =====
-- What `NewChain` finds after `AppendBlock`.
use chainlang.Prelude.{
  ℕ, zero, suc, ◌≡◌, refl, ap, ◌∙◌, subst, Bool, true, false, Option, none, some, Bytes,
}
use chainlang.Config.{ChainConfig}
use chainlang.Core.Types.{Block}
use chainlang.Core.Files.{meta_path, Disk, Os, Json}
use chainlang.Core.Chain.{
  Chain, Mutex, held_by_readers, held_by_writer, Outcome, returned, blocked, ◌and_then◌, lock_of,
  at_tip, write_meta, store_bytes, stored, save, append_block,
}
use chainlang.Core.Chain.Loading.{from_meta, with_meta, new_chain}
use chainlang.Core.Chain.Storing.{KeepsFiles}

abbrev ended : Chain → Outcome (Chain × Bool) → Chain
ended c blocked = c
ended c (returned r) = r.0

abbrev succeeds : Outcome (Chain × Bool) → Bool
succeeds blocked = false
succeeds (returned r) = r.1

module _ (json : Json) (os : Os) (laws : KeepsFiles os) (b : Block) where
  -- The file of the metadata holds the block's height and hash.
  abbrev HoldsTip : Disk → Type 0
  HoldsTip d =
      (text : Bytes) × (json.marshal_meta b.height b.hash ≡ some text) × (d meta_path ≡ some text)

  saved-HoldsTip :
      (x : Chain) (o : Option Bytes)
      → json.marshal_meta b.height b.hash ≡ o
      → (write_meta os x o).1 ≡ true
      → HoldsTip (write_meta os x o).0.disk
  saved-HoldsTip x none e good = cc good
  saved-HoldsTip x (some text) e good = (text, e, laws.write-read x.disk meta_path text good)

  stored-HoldsTip :
      (c : Chain) (s : Chain × Bool)
      → succeeds (stored json os b s) ≡ true
      → HoldsTip (ended c (stored json os b s)).disk
  unfolding save
  stored-HoldsTip c (x, false) good = cc good
  stored-HoldsTip c (x, true) good =
      saved-HoldsTip (record (at_tip x b) { mu = held_by_readers 1 })
        (json.marshal_meta b.height b.hash) refl good

  appended-HoldsTip :
      (c : Chain) (m : Mutex)
      → (let run =
            lock_of m c and_then λ h. stored json os b (store_bytes os h b (json.marshal_file b)) in
          succeeds run ≡ true → HoldsTip (ended c run).disk)
  appended-HoldsTip c (held_by_readers zero) good =
      stored-HoldsTip c (store_bytes os (record c { mu = held_by_writer }) b (json.marshal_file b))
        good
  appended-HoldsTip c (held_by_readers (suc n)) good = cc good
  appended-HoldsTip c held_by_writer good = cc good

  -- After an `AppendBlock` with no error, `NewChain` on the directory has the block as its tip: its height
  -- and its hash, with a free lock. Files keep what is written, the JSON of the metadata is read back,
  -- and the directories can be made.
  pub new_chain-append_block :
      (c r : Chain) (cfg : ChainConfig)
      → ((height : ℕ) (last text : Bytes)
          → json.marshal_meta height last ≡ some text
          → json.unmarshal_meta text ≡ some (height, last))
      → append_block json os c b ≡ returned (r, true)
      → os.make_dirs r.disk ≡ true
      → new_chain json os r.disk (some cfg)
        ≡ some (record {
          mu = held_by_readers 0;
          disk = r.disk;
          cfg = cfg;
          height = b.height;
          last_hash = b.hash;
        })
  unfolding append_block new_chain
  new_chain-append_block c r cfg reads appends dirs =
      let held =
        subst (λ o. succeeds o ≡ true → HoldsTip (ended c o).disk) appends
          (appended-HoldsTip c c.mu) refl in
      rw dirs (
        ap (from_meta json os r.disk cfg) held.2
        ∙ ap (with_meta r.disk cfg) (reads b.height b.hash held.0 held.1))
