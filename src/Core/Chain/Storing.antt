-- ===== src/Core/Chain/Storing.antt =====
-- `Save`, the writing of a block and `SetTip`: what they leave on the disk, and whether they return.
use chainlang.Prelude.{
  get_or, ℕ, zero, suc, ◌≡◌, ◌≢◌, refl, ap, ◌∙◌, Bool, true, false, Option, none, some, [], ◌∷◌,
  Bytes, arith,
}
use chainlang.Go.Hex.{encode_to_string, encode_to_string_dotless}
use chainlang.Crypto.Hash.{hash_hex}
use chainlang.Core.Types.{Block}
use chainlang.Core.Files.{FilePath, meta_path, block_path, Disk, Os, Json}
use chainlang.Core.Chain.{
  Mutex, held_by_readers, held_by_writer, Chain, returned, blocked, write_meta, save, block_name,
  temp_name, renamed, written_temp, store_bytes, set_tip, runlock,
}

-- os.WriteFile touches one file, os.Rename two and none if it fails, os.Remove one.
pub record KeepsFiles (os : Os) : Type 0 where
  pub write-read :
      (d : Disk) (p : FilePath) (x : Bytes)
      → (os.write_file d p x).1 ≡ true
      → (os.write_file d p x).0 p ≡ some x
  pub write-other :
      (d : Disk) (p : FilePath) (x : Bytes) (q : FilePath) → q ≢ p → (os.write_file d p x).0 q ≡ d q
  pub rename-read :
      (d : Disk) (p q : FilePath) → (os.rename d p q).1 ≡ true → (os.rename d p q).0 q ≡ d p
  pub rename-other : (d : Disk) (p q r : FilePath) → r ≢ p → r ≢ q → (os.rename d p q).0 r ≡ d r
  pub remove-other : (d : Disk) (p q : FilePath) → q ≢ p → os.remove_file d p q ≡ d q

-- The JSON package reads back the file of this block.
abbrev pub RestoresBlock : Json → Block → Type 0
RestoresBlock json b = (x : Bytes) → json.marshal_file b ≡ some x → json.unmarshal_file x ≡ some b

-- A write lock is held while `Save` asks for the read lock.
set_tip_under :
    (json : Json) (os : Os) (c : Chain) (b : Block) (m : Mutex)
    → c.mu ≡ m
    → set_tip json os c b ≡ blocked
unfolding set_tip save
set_tip_under json os c b (held_by_readers zero) e = rw e refl
set_tip_under json os c b (held_by_readers (suc n)) e = rw e refl
set_tip_under json os c b held_by_writer e = rw e refl

-- `SetTip` does not return from any state of the lock, where nobody else gives the lock back.
pub set_tip_blocked :
    (json : Json) (os : Os) (c : Chain) (b : Block) → set_tip json os c b ≡ blocked
set_tip_blocked json os c b = set_tip_under json os c b c.mu refl

jay_is_not_tee : ◌≢◌ {A = ℕ} 106 116
jay_is_not_tee e = omega arith

-- The name of a block's file is no temporary name, and the temporary name of no block.
block_name-temp_name : (h k : Bytes) → block_name h ≢ temp_name k
unfolding hash_hex encode_to_string
block_name-temp_name [] k e = jay_is_not_tee (ap (λ (l : Bytes). get_or l 1 0) e)
block_name-temp_name (b ∷ bs) k e =
    let (c, rest, same, other) = encode_to_string_dotless b bs in other (cc (same, e))

pub block_path-apart : (h k : Bytes) → block_path (block_name h) ≢ block_path (temp_name k)
block_path-apart h k e = block_name-temp_name h k (cc e)

-- `c'` is `c` but for the files that `q` is not.
pub record Keeps (c c' : Chain) (q : FilePath) : Type 0 where
  pub file : c'.disk q ≡ c.disk q
  pub lock_kept : c'.mu ≡ c.mu
  pub tip_kept : c'.last_hash ≡ c.last_hash
  pub height_kept : c'.height ≡ c.height

module _ (json : Json) (os : Os) (laws : KeepsFiles os) where
  write_meta-Keeps :
      (c : Chain) (m : Option Bytes) (n : Bytes) → Keeps c (write_meta os c m).0 (block_path n)
  write_meta-Keeps c none n = record {
    file = refl;
    lock_kept = refl;
    tip_kept = refl;
    height_kept = refl;
  }
  write_meta-Keeps c (some x) n = record {
    file = laws.write-other c.disk meta_path x (block_path n) (λ e. cc e);
    lock_kept = refl;
    tip_kept = refl;
    height_kept = refl;
  }

  renamed-Keeps :
      (c : Chain) (b : Block) (r : Disk × Bool) (q : FilePath)
      → q ≢ block_path (temp_name b.hash)
      → r.0 q ≡ c.disk q
      → Keeps c (renamed os c b r).0 q
  renamed-Keeps c b (d, true) q other e = record {
    file = e;
    lock_kept = refl;
    tip_kept = refl;
    height_kept = refl;
  }
  renamed-Keeps c b (d, false) q other e = record {
    file = laws.remove-other d (block_path (temp_name b.hash)) q other ∙ e;
    lock_kept = refl;
    tip_kept = refl;
    height_kept = refl;
  }

  written_temp-Keeps :
      (c : Chain) (b : Block) (w : Disk × Bool) (q : FilePath)
      → q ≢ block_path (temp_name b.hash)
      → q ≢ block_path (block_name b.hash)
      → w.0 q ≡ c.disk q
      → Keeps c (written_temp os c b w).0 q
  written_temp-Keeps c b (d, false) q other differ e = record {
    file = e;
    lock_kept = refl;
    tip_kept = refl;
    height_kept = refl;
  }
  written_temp-Keeps c b (d, true) q other differ e =
      renamed-Keeps c b
        (os.rename d (block_path (temp_name b.hash)) (block_path (block_name b.hash))) q other
        (laws.rename-other d (block_path (temp_name b.hash)) (block_path (block_name b.hash)) q
            other differ
          ∙ e)

  pub store_bytes-Keeps :
      (c : Chain) (b : Block) (m : Option Bytes) (q : FilePath)
      → q ≢ block_path (temp_name b.hash)
      → q ≢ block_path (block_name b.hash)
      → Keeps c (store_bytes os c b m).0 q
  store_bytes-Keeps c b none q other differ = record {
    file = refl;
    lock_kept = refl;
    tip_kept = refl;
    height_kept = refl;
  }
  store_bytes-Keeps c b (some x) q other differ =
      written_temp-Keeps c b (os.write_file c.disk (block_path (temp_name b.hash)) x) q other differ
        (laws.write-other c.disk (block_path (temp_name b.hash)) x q other)

  renamed-file :
      (c : Chain) (b : Block) (d : Disk) (r : Disk × Bool) (q : FilePath)
      → (r.1 ≡ true → r.0 q ≡ d (block_path (temp_name b.hash)))
      → (renamed os c b r).1 ≡ true
      → (renamed os c b r).0.disk q ≡ d (block_path (temp_name b.hash))
  renamed-file c b d (d', true) q h e = h refl
  renamed-file c b d (d', false) q h e = cc e

  written_temp-file :
      (c : Chain) (b : Block) (x : Bytes) (w : Disk × Bool)
      → (w.1 ≡ true → w.0 (block_path (temp_name b.hash)) ≡ some x)
      → (written_temp os c b w).1 ≡ true
      → (written_temp os c b w).0.disk (block_path (block_name b.hash)) ≡ some x
  written_temp-file c b x (d, false) h e = cc e
  written_temp-file c b x (d, true) h e =
      renamed-file c b d
        (os.rename d (block_path (temp_name b.hash)) (block_path (block_name b.hash)))
        (block_path (block_name b.hash))
        (laws.rename-read d (block_path (temp_name b.hash)) (block_path (block_name b.hash))) e
      ∙ h refl

  pub store_bytes-file :
      (c : Chain) (b : Block) (m : Option Bytes)
      → (store_bytes os c b m).1 ≡ true
      → (x : Bytes) × (m ≡ some x)
        × ((store_bytes os c b m).0.disk (block_path (block_name b.hash)) ≡ some x)
  store_bytes-file c b none e = cc e
  store_bytes-file c b (some x) e = (
    x,
    refl,
    written_temp-file c b x (os.write_file c.disk (block_path (temp_name b.hash)) x)
        (laws.write-read c.disk (block_path (temp_name b.hash)) x) e,
  )

  -- With the lock free, `Save` returns, and touches neither blocks nor the tip.
  pub save-Keeps :
      (c : Chain)
      → c.mu ≡ held_by_readers 0
      → (r : Chain × Bool) × (save json os c ≡ returned r)
        × ((n : Bytes) → Keeps c r.0 (block_path n))
  unfolding save
  save-Keeps c free =
      let held = record c { mu = held_by_readers 1 } in
      let saved = write_meta os held (json.marshal_meta c.height c.last_hash) in
      let keeps = write_meta-Keeps held (json.marshal_meta c.height c.last_hash) in
      (
        (runlock saved.0, saved.1),
        rw free refl,
        λ n. record {
          file = (keeps n).file;
          lock_kept = rw ((keeps n).lock_kept, free) refl;
          tip_kept = (keeps n).tip_kept;
          height_kept = (keeps n).height_kept;
        },
      )
