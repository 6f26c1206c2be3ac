-- ===== src/Core/Chain/Keeping.antt =====
-- `AppendBlock` leaves the genesis file.
use chainlang.Prelude.{
  zero, suc, ◌≡◌, refl, ◌∙◌, subst, Bool, true, false, Option, none, some, Bytes,
}
use chainlang.Core.Types.{Block}
use chainlang.Core.Files.{genesis_path, meta_path, Os, Json}
use chainlang.Core.Chain.{
  Chain, Mutex, held_by_readers, held_by_writer, Outcome, returned, blocked, ◌and_then◌, lock_of,
  at_tip, write_meta, store_bytes, stored, save, append_block,
}
use chainlang.Core.Chain.Storing.{KeepsFiles, store_bytes-Keeps}

module _ (json : Json) (os : Os) (laws : KeepsFiles os) (b : Block) where
  abbrev LeavesGenesis : Chain → Outcome (Chain × Bool) → Type 0
  LeavesGenesis c (returned r) = r.0.disk genesis_path ≡ c.disk genesis_path
  LeavesGenesis c blocked = Unit

  write_meta-genesis :
      (c : Chain) (o : Option Bytes) → (write_meta os c o).0.disk genesis_path ≡ c.disk genesis_path
  write_meta-genesis c none = refl
  write_meta-genesis c (some text) = laws.write-other c.disk meta_path text genesis_path (λ e. cc e)

  stored-LeavesGenesis :
      (c : Chain) (s : Chain × Bool)
      → s.0.disk genesis_path ≡ c.disk genesis_path
      → LeavesGenesis c (stored json os b s)
  unfolding save
  stored-LeavesGenesis c (x, false) e = e
  stored-LeavesGenesis c (x, true) e =
      write_meta-genesis (record (at_tip x b) { mu = held_by_readers 1 })
        (json.marshal_meta b.height b.hash)
      ∙ e

  appended-LeavesGenesis :
      (c : Chain) (m : Mutex)
      → LeavesGenesis c
          (lock_of m c and_then λ h. stored json os b (store_bytes os h b (json.marshal_file b)))
  appended-LeavesGenesis c (held_by_readers zero) =
      let held : Chain = record c { mu = held_by_writer } in
      stored-LeavesGenesis c (store_bytes os held b (json.marshal_file b))
        (store_bytes-Keeps json os laws held b (json.marshal_file b) genesis_path (λ e. cc e)
          (λ e. cc e)).file
  appended-LeavesGenesis c (held_by_readers (suc n)) = tt
  appended-LeavesGenesis c held_by_writer = tt

  pub append_block-genesis :
      (c : Chain) (r : Chain × Bool)
      → append_block json os c b ≡ returned r
      → r.0.disk genesis_path ≡ c.disk genesis_path
  unfolding append_block
  append_block-genesis c r e = subst (LeavesGenesis c) e (appended-LeavesGenesis c c.mu)
