-- ===== src/Core/Chain/Reliable.antt =====
-- `AppendBlock` where the disk takes what is written and the JSON package can encode blocks.
use chainlang.Prelude.{
  ℕ, zero, suc, ◌≡◌, refl, Bool, true, false, Option, none, some, Bytes, is_some, subst,
}
use chainlang.Core.Types.{Block}
use chainlang.Core.Files.{FilePath, Disk, Os, Json, meta_path, block_path}
use chainlang.Core.Chain.{
  Chain, Mutex, held_by_readers, held_by_writer, Outcome, returned, blocked, ◌and_then◌, lock_of,
  at_tip, write_meta, renamed, written_temp, store_bytes, stored, save, append_block, temp_name,
  block_name,
}
use chainlang.Core.Chain.Storing.{KeepsFiles}

-- os.WriteFile succeeds, os.Rename succeeds for a file that is there, and json.Marshal succeeds.
pub record IsReliable (json : Json) (os : Os) : Type 0 where
  pub writes : (d : Disk) (p : FilePath) (x : Bytes) → (os.write_file d p x).1 ≡ true
  pub renames : (d : Disk) (p q : FilePath) (x : Bytes) → d p ≡ some x → (os.rename d p q).1 ≡ true
  pub marshals : (b : Block) → is_some (json.marshal_file b) ≡ true
  pub marshals_meta : (height : ℕ) (last : Bytes) → is_some (json.marshal_meta height last) ≡ true

module _ (json : Json) (os : Os) (laws : KeepsFiles os) (reliable : IsReliable json os)
    (b : Block) where
  abbrev Succeeds : Outcome (Chain × Bool) → Type 0
  Succeeds (returned r) = r.1 ≡ true
  Succeeds blocked = Unit

  write_meta_succeeds :
      (c : Chain) (o : Option Bytes) → is_some o ≡ true → (write_meta os c o).1 ≡ true
  write_meta_succeeds c none e = cc e
  write_meta_succeeds c (some text) e = reliable.writes c.disk meta_path text

  renamed_succeeds : (c : Chain) (r : Disk × Bool) → r.1 ≡ true → (renamed os c b r).1 ≡ true
  renamed_succeeds c (d, true) e = refl
  renamed_succeeds c (d, false) e = cc e

  written_temp_succeeds :
      (c : Chain) (r : Disk × Bool) (x : Bytes)
      → r.1 ≡ true
      → r.0 (block_path (temp_name b.hash)) ≡ some x
      → (written_temp os c b r).1 ≡ true
  written_temp_succeeds c (d, true) x e there =
      let from = block_path (temp_name b.hash) in
      let to = block_path (block_name b.hash) in
      renamed_succeeds c (os.rename d from to) (reliable.renames d from to x there)
  written_temp_succeeds c (d, false) x e there = cc e

  store_bytes_succeeds :
      (c : Chain) (o : Option Bytes) → is_some o ≡ true → (store_bytes os c b o).1 ≡ true
  store_bytes_succeeds c none e = cc e
  store_bytes_succeeds c (some text) e =
      let temp = block_path (temp_name b.hash) in
      let good = reliable.writes c.disk temp text in
      written_temp_succeeds c (os.write_file c.disk temp text) text good
        (laws.write-read c.disk temp text good)

  stored-Succeeds : (s : Chain × Bool) → s.1 ≡ true → Succeeds (stored json os b s)
  unfolding save
  stored-Succeeds (c, true) e =
      write_meta_succeeds (record (at_tip c b) { mu = held_by_readers 1 })
        (json.marshal_meta b.height b.hash) (reliable.marshals_meta b.height b.hash)
  stored-Succeeds (c, false) e = cc e

  appended-Succeeds :
      (c : Chain) (m : Mutex)
      → Succeeds
          (lock_of m c and_then λ h. stored json os b (store_bytes os h b (json.marshal_file b)))
  appended-Succeeds c (held_by_readers zero) =
      let held : Chain = record c { mu = held_by_writer } in
      stored-Succeeds (store_bytes os held b (json.marshal_file b))
        (store_bytes_succeeds held (json.marshal_file b) (reliable.marshals b))
  appended-Succeeds c (held_by_readers (suc n)) = tt
  appended-Succeeds c held_by_writer = tt

  -- On a reliable disk `AppendBlock` reports no error, if it returns.
  pub append_block_succeeds :
      (c : Chain) (r : Chain × Bool) → append_block json os c b ≡ returned r → r.1 ≡ true
  unfolding append_block
  append_block_succeeds c r e = subst Succeeds e (appended-Succeeds c c.mu)
