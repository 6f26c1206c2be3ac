-- ===== src/Core/Chain/Free.antt =====
-- The calls of a chain whose lock nobody holds: they return, and leave the lock free.
use chainlang.Prelude.{
  ℕ, List, [], ltb, ◌||◌, ◌≡◌, refl, ap, sym, ◌∙◌, subst, Bool, true, false, Option, none, some,
  Bytes, if◌then◌else◌, is_some, inl, inr, ◌⊎◌,
}
use chainlang.Crypto.Hash.{is_zero}
use chainlang.Go.Word.{ℤ, positive_or}
use chainlang.Core.Types.{Block}
use chainlang.Core.Files.{Disk, Os, Json, block_path, meta_path}
use chainlang.Core.Chain.{
  Chain, held_by_readers, held_by_writer, Outcome, returned, blocked, ◌and_then◌, lock, lock_of,
  read_block, get_block, has_block, last_block, write_bytes, write_block, at_tip, unlock,
  block_name, temp_name, renamed, written_temp, store_bytes, get_blocks_from, walk, load_walked,
  write_meta, runlock, stored, save, append_block,
}

abbrev pub IsFree : Chain → Type 0
IsFree c = c.mu ≡ held_by_readers 0

abbrev pub freed : Chain → Chain
freed c = record c { mu = held_by_readers 0 }

pub freed-eq : (c : Chain) → IsFree c → freed c ≡ c
freed-eq c free = ap (λ m. record c { mu = m }) (sym free)

abbrev pub wrap_found : Option Block → Option (Option Block)
wrap_found none = none
wrap_found (some b) = some (some b)

-- What `LastBlock` returns.
abbrev pub last_read : Json → Chain → Option (Option Block)
last_read json c =
    if is_zero c.last_hash then some none else wrap_found (read_block json c.disk c.last_hash)

module _ (json : Json) (c : Chain) (free : IsFree c) where
  pub get_block-IsFree : (h : Bytes) → get_block json c h ≡ returned (c, read_block json c.disk h)
  unfolding get_block
  get_block-IsFree h =
      subst (λ x. get_block json x h ≡ returned (x, read_block json x.disk h)) (freed-eq c free)
        refl

  pub has_block-IsFree :
      (h : Bytes) → has_block json c h ≡ returned (c, is_some (read_block json c.disk h))
  unfolding has_block
  has_block-IsFree h = ap (λ o. o and_then λ r. returned (r.0, is_some r.1)) (get_block-IsFree h)

  last_block-freed :
      (z : Bool) (o : Option Block)
      → is_zero c.last_hash ≡ z
      → read_block json c.disk c.last_hash ≡ o
      → last_block json (freed c) ≡ returned (freed c, if z then some none else wrap_found o)
  unfolding last_block get_block
  last_block-freed true o ez eo = rw ez refl
  last_block-freed false none ez eo = rw (ez, eo) refl
  last_block-freed false (some b) ez eo = rw (ez, eo) refl

  pub last_block-IsFree : last_block json c ≡ returned (c, last_read json c)
  last_block-IsFree =
      subst (λ x. last_block json x ≡ returned (x, last_read json c)) (freed-eq c free)
        (last_block-freed (is_zero c.last_hash) (read_block json c.disk c.last_hash) refl refl)

-- If the call returns, the chain is as it was.
abbrev pub Leaves {ℓ} : {A : Type ℓ} → Chain → Outcome (Chain × A) → Type 0
Leaves c (returned (x, a)) = x ≡ c
Leaves c blocked = Unit

module _ (json : Json) (c : Chain) (free : IsFree c) where
  load_walked-Leaves :
      (max : ℕ) (o : Outcome (Option (List Bytes)))
      → Leaves (freed c) (load_walked json (freed c) max o)
  load_walked-Leaves max blocked = tt
  load_walked-Leaves max (returned none) = refl
  load_walked-Leaves max (returned (some hashes)) = refl

  Leaves-if :
      {A : Type 0} (t : Bool) (x : Chain) (a b : Outcome (Chain × A))
      → Leaves x a
      → Leaves x b
      → Leaves x (if t then a else b)
  Leaves-if true x a b h k = h
  Leaves-if false x a b h k = k

  pub get_blocks_from-Leaves :
      (fuel from : ℕ) (max : ℤ) → Leaves c (get_blocks_from json fuel c from max)
  unfolding get_blocks_from
  get_blocks_from-Leaves fuel from max =
      subst (λ x. Leaves x (get_blocks_from json fuel x from max)) (freed-eq c free)
        (Leaves-if (is_zero c.last_hash || ltb c.height from) (freed c)
          (returned (freed c, some [])) _ refl
          (load_walked-Leaves (positive_or 10_000 max) (walk json c.disk from fuel c.last_hash)))

-- What os.WriteFile returns for the block's file and its JSON. If there is no JSON, there is no call.
abbrev file_result : Os → Disk → Block → Option Bytes → Disk × Bool
file_result os d b none = (d, false)
file_result os d b (some text) = os.write_file d (block_path (block_name b.hash)) text

-- The disk when os.WriteFile was asked to put the block's indented JSON in the file that its hash names.
abbrev pub written_disk : Json → Os → Disk → Block → Disk
written_disk json os d b = (file_result os d b (json.marshal_indent b)).0

module _ (json : Json) (os : Os) (c : Chain) (free : IsFree c) (b : Block) where
  written_bytes :
      (m : Option Bytes)
      → let done = write_bytes os (record c { mu = held_by_writer }) b m in
        let result = file_result os c.disk b m in
        ◌≡◌ {A = Outcome (Chain × Bool)}
          (returned (unlock done.0, done.1))
          (returned (record (freed c) { disk = result.0 }, result.1))
  written_bytes none = refl
  written_bytes (some text) = refl

  abbrev pub written_well : Bool
  written_well = (file_result os c.disk b (json.marshal_indent b)).1

  -- `WriteBlock` writes the block's file, and does nothing else.
  pub write_block-IsFree :
      write_block json os c b
      ≡ returned (record c { disk = written_disk json os c.disk b }, written_well)
  unfolding write_block
  write_block-IsFree =
      subst
        (λ x.
          write_block json os x b
          ≡ returned (
            record x { disk = written_disk json os x.disk b },
            (file_result os x.disk b (json.marshal_indent b)).1,
          ))
        (freed-eq c free) (written_bytes (json.marshal_indent b))

  -- `SetTip` waits, with the tip set and the lock held.
  pub set_tip-IsFree : lock c ≡ returned (record c { mu = held_by_writer })
  set_tip-IsFree = rw free refl

  renamed-tip : (x : Chain) (r : Disk × Bool) → (renamed os x b r).0.last_hash ≡ x.last_hash
  renamed-tip x (d, true) = refl
  renamed-tip x (d, false) = refl

  written_temp-tip :
      (x : Chain) (r : Disk × Bool) → (written_temp os x b r).0.last_hash ≡ x.last_hash
  written_temp-tip x (d, true) =
      renamed-tip x (os.rename d (block_path (temp_name b.hash)) (block_path (block_name b.hash)))
  written_temp-tip x (d, false) = refl

  store_bytes-tip :
      (x : Chain) (m : Option Bytes) → (store_bytes os x b m).0.last_hash ≡ x.last_hash
  store_bytes-tip x none = refl
  store_bytes-tip x (some text) =
      written_temp-tip x (os.write_file x.disk (block_path (temp_name b.hash)) text)

  saved_meta :
      (x : Chain) (m : Option Bytes)
      → (d : Disk) × (good : Bool) × (let saved =
            write_meta os (record x { mu = held_by_readers 1 }) m in
          ◌≡◌ {A = Outcome (Chain × Bool)}
            (returned (runlock saved.0, saved.1))
            (returned (record (freed x) { disk = d }, good)))
  saved_meta x none = (x.disk, false, refl)
  saved_meta x (some text) = let r = os.write_file x.disk meta_path text in (r.0, r.1, refl)

  -- What `AppendBlock` leaves: a free lock, and the tip it found or the block; the block if there was no
  -- error.
  pub record Advanced (r : Chain × Bool) : Type 0 where
    pub free_after : IsFree r.0
    pub tip : (r.0.last_hash ≡ c.last_hash) ⊎ (r.0.last_hash ≡ b.hash)
    pub moved : r.1 ≡ true → (r.0.last_hash ≡ b.hash) × (r.0.height ≡ b.height)

  stored-Advanced :
      (s : Chain × Bool)
      → s.0.last_hash ≡ c.last_hash
      → (r : Chain × Bool) × (stored json os b s ≡ returned r) × Advanced r
  unfolding save
  stored-Advanced (x, false) same =
      ((unlock x, false), refl, record { free_after = refl; tip = inl same; moved = λ e. cc e })
  stored-Advanced (x, true) same =
      let (d, good, saves) = saved_meta (at_tip x b) (json.marshal_meta b.height b.hash) in
      (
        (record (freed (at_tip x b)) { disk = d }, good),
        saves,
        record { free_after = refl; tip = inr refl; moved = λ _. (refl, refl) },
      )

  pub append_block-Advanced :
      (r : Chain × Bool) × (append_block json os c b ≡ returned r) × Advanced r
  unfolding append_block
  append_block-Advanced =
      let held : Chain = record c { mu = held_by_writer } in
      let result = store_bytes os held b (json.marshal_file b) in
      let (r, returns, advanced) =
        stored-Advanced result (store_bytes-tip held (json.marshal_file b)) in
      (
        r,
        ap
              (λ m. lock_of m c and_then λ h.
                stored json os b (store_bytes os h b (json.marshal_file b)))
              free
            ∙ returns,
        advanced,
      )
