-- ===== src/Core/Chain/Appending.antt =====
-- `AppendBlock` as a whole: what it leaves on the disk and in the tip.
use chainlang.Prelude.{
  ◌+◌, ◌⊎◌, inl, inr, ◌<◌, ◌≡◌, ◌≢◌, refl, ap, ◌∙◌, Bool, true, false, some, [], ◌∷◌, ◌++◌, Bytes,
  arith, All, append_injective, length, length-append,
}
use chainlang.Go.Hex.{encode_to_string_injective}
use chainlang.Crypto.Hash.{hash_hex}
use chainlang.Core.Types.{Block}
use chainlang.Core.Files.{meta_path, block_path, Os, Json}
use chainlang.Core.Chain.{
  held_by_readers, held_by_writer, Chain, returned, ◌and_then◌, lock_of, unlock, block_name,
  store_bytes, at_tip, stored, append_block, parse_block, read_block,
}
use chainlang.Core.Chain.Storing.{
  KeepsFiles, RestoresBlock, block_path-apart, store_bytes-Keeps, store_bytes-file, save-Keeps,
}

abbrev pub IsBytes : Bytes → Type 0
IsBytes h = All (λ b. b < 256) h

block_name_injective : (h k : Bytes) → IsBytes h → IsBytes k → block_name h ≡ block_name k → h ≡ k
unfolding hash_hex
block_name_injective h k bytes_h bytes_k e =
    let ending : Bytes = b'.' ∷ b'j' ∷ b's' ∷ b'o' ∷ b'n' ∷ [] in
    let sizes : length (hash_hex h ++ ending) ≡ length (hash_hex k ++ ending) = ap length e in
    let size_h : length (hash_hex h ++ ending) ≡ length (hash_hex h) + 5 =
      length-append (hash_hex h) ending in
    let size_k : length (hash_hex k ++ ending) ≡ length (hash_hex k) + 5 =
      length-append (hash_hex k) ending in
    encode_to_string_injective h k bytes_h bytes_k
      (append_injective (hash_hex h) (hash_hex k) ending ending (omega arith) e).0

-- What `AppendBlock` leaves: a free lock, every other block as it was, a tip that is the old one or the
-- block; and if it reports no error, the block can be read and is the tip.
pub record Appended (json : Json) (c : Chain) (b : Block) (r : Chain × Bool) : Type 0 where
  pub free : r.0.mu ≡ held_by_readers 0
  pub others :
      (h : Bytes) → IsBytes h → h ≢ b.hash → read_block json r.0.disk h ≡ read_block json c.disk h
  pub tip : (r.0.last_hash ≡ c.last_hash) ⊎ (r.0.last_hash ≡ b.hash)
  pub on_success :
      r.1 ≡ true
      → (read_block json r.0.disk b.hash ≡ some b)
        × (r.0.last_hash ≡ b.hash)
        × (r.0.height ≡ b.height)

module _ (json : Json) (os : Os) (laws : KeepsFiles os) (b : Block)
    (restores : RestoresBlock json b) where
  stored-Appended :
      (c : Chain) (s : Chain × Bool)
      → s.0.last_hash ≡ c.last_hash
      → ((h : Bytes)
          → IsBytes h
          → h ≢ b.hash
          → s.0.disk (block_path (block_name h)) ≡ c.disk (block_path (block_name h)))
      → (s.1 ≡ true
          → (x : Bytes) × (json.marshal_file b ≡ some x)
            × (s.0.disk (block_path (block_name b.hash)) ≡ some x))
      → (r : Chain × Bool) × (stored json os b s ≡ returned r) × Appended json c b r
  unfolding read_block
  stored-Appended c (d, false) tip others file = (
    (unlock d, false),
    refl,
    record {
      free = refl;
      others = λ h bytes other. ap (parse_block json) (others h bytes other);
      tip = inl tip;
      on_success = λ e. cc e;
    },
  )
  stored-Appended c (d, true) tip others file =
      let (r, saves, keeps) = save-Keeps json os laws (unlock (at_tip d b)) refl in
      let (x, encoded, on_disk) = file refl in
      (
        r,
        saves,
        record {
          free = (keeps []).lock_kept;
          others = λ h bytes other.
              ap (parse_block json) ((keeps (block_name h)).file ∙ others h bytes other);
          tip = inr (keeps []).tip_kept;
          on_success = λ e. (
            ap (parse_block json) ((keeps (block_name b.hash)).file ∙ on_disk) ∙ restores x encoded,
            (keeps []).tip_kept,
            (keeps []).height_kept,
          );
        },
      )

  -- On a file system whose calls touch only the files they name, for a block that the JSON package
  -- reads back and whose hash is of bytes, and with the lock free, `AppendBlock` returns, with an
  -- error or without: the lock is free again, the other blocks are as they were, the tip is the old
  -- one or the block, and after a success the block is read back under its hash and is the tip.
  pub append_block-Appended :
      (c : Chain)
      → c.mu ≡ held_by_readers 0
      → IsBytes b.hash
      → (r : Chain × Bool) × (append_block json os c b ≡ returned r) × Appended json c b r
  unfolding append_block
  append_block-Appended c free bytes =
      let held = record c { mu = held_by_writer } in
      let result = store_bytes os held b (json.marshal_file b) in
      let keeps = λ (h : Bytes) (bytes_h : IsBytes h) (other : h ≢ b.hash).
        store_bytes-Keeps json os laws held b (json.marshal_file b) (block_path (block_name h))
          (block_path-apart h b.hash)
          (λ e. other (block_name_injective h b.hash bytes_h bytes (cc e))) in
      let (r, returns, appended) =
        stored-Appended c result
          (store_bytes-Keeps json os laws held b (json.marshal_file b) meta_path (λ e. cc e)
            (λ e. cc e)).tip_kept
          (λ h bytes_h other. (keeps h bytes_h other).file)
          (store_bytes-file json os laws held b (json.marshal_file b)) in
      (
        r,
        ap
              (λ m. lock_of m c and_then λ h.
                stored json os b (store_bytes os h b (json.marshal_file b)))
              free
            ∙ returns,
        appended,
      )
