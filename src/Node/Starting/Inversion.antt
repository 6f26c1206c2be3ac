-- ===== src/Node/Starting/Inversion.antt =====
-- What the steps were of a command that went through.
use chainlang.Prelude.{
  ◌≡◌, refl, ap, sym, ◌∙◌, Bool, true, false, not, Option, none, some, List, [], ◌∷◌, Bytes,
  if◌then◌else◌,
}
use chainlang.Config.{default_chain_config}
use chainlang.Crypto.Primitives.{PrivateKey}
use chainlang.Crypto.Keyfile.{KeyDisk, save_key, load_key}
use chainlang.Crypto.Signature.{pubkey_to_address}
use chainlang.LevelDb.{Db}
use chainlang.Core.Types.{genesis_block}
use chainlang.Core.Files.{Disk, GenesisFile}
use chainlang.Core.Genesis.{write_genesis_file, load_genesis_from_file}
use chainlang.Core.Chain.{Chain, Outcome, returned, blocked, append_block}
use chainlang.Core.Chain.Loading.{new_chain}
use chainlang.State.Store.{State, open_state, open_state-some}
use chainlang.State.Genesis.{apply_genesis}
use chainlang.P2p.Peers.{Conn}
use chainlang.Node.{World, Node}
use chainlang.Node.Starting.{
  Machine, DataDir, Attempt, done, refused, panicked, waited, ◌and_run◌, checked, succeeded,
  pointed, called, block_of, opened_state, ensure_genesis, world_of, first_node, start,
  only_validator, run_init,
}

module _ {ℓ} {A : Type ℓ} where
  abbrev value_or_else : A → Attempt A → A
  value_or_else a (done b) = b
  value_or_else a refused = a
  value_or_else a panicked = a
  value_or_else a waited = a

  pub done_injective : (a b : A) → done a ≡ done b → a ≡ b
  done_injective a b e = ap (value_or_else a) e

  pub if-done :
      (t : Bool) (x : Attempt A) {a : A}
      → (if t then refused else x) ≡ done a
      → (t ≡ false) × (x ≡ done a)
  if-done true x e = cc e
  if-done false x e = (refl, e)

  unless-done :
      (t : Bool) (x : Attempt A) {a : A} → (if t then x else refused) ≡ done a → x ≡ done a
  unless-done true x e = e
  unless-done false x e = cc e

  checked-done : (o : Option A) {a : A} → checked o ≡ done a → o ≡ some a
  checked-done none e = cc e
  checked-done (some b) e = cc e

  pointed-done : (o : Option A) {a : A} → pointed o ≡ done a → o ≡ some a
  pointed-done none e = cc e
  pointed-done (some b) e = cc e

  succeeded-done : (r : A × Bool) {a : A} → succeeded r ≡ done a → r ≡ (a, true)
  succeeded-done (b, true) e = cc e
  succeeded-done (b, false) e = cc e

  called-done : (o : Outcome (A × Bool)) {a : A} → called o ≡ done a → o ≡ returned (a, true)
  called-done blocked e = cc e
  called-done (returned r) e = ap returned (succeeded-done r e)

module _ {ℓ κ} {A : Type ℓ} {B : Type κ} where
  pub and_run-done :
      (x : Attempt A) (next : A → Attempt B) {b : B}
      → x and_run next ≡ done b
      → (a : A) × (x ≡ done a) × (next a ≡ done b)
  and_run-done (done a) next e = (a, refl, e)
  and_run-done refused next e = cc e
  and_run-done panicked next e = cc e
  and_run-done waited next e = cc e

module _ (m : Machine) where
  opened_state-done :
      (db : Db) {s : State}
      → opened_state m db ≡ done s
      → (stored : Db) × (m.open_file db ≡ some stored)
        × (record { db = stored; cfg = default_chain_config } ≡ s)
  opened_state-done db e =
      open_state-some m.open_file db default_chain_config
        (checked-done (open_state m.open_file db (some default_chain_config)) e)

  -- The directory that `runInit` left, and the steps to it.
  pub record Initialised (before after : DataDir) : Type 0 where
    pub key : PrivateKey
    pub generated : m.generated ≡ some key
    pub files : Disk
    pub stored : Db
    pub g : GenesisFile
    pub applied : State
    pub c : Chain
    pub appended : Chain
    pub writes :
        write_genesis_file m.p m.json m.os before.files default_chain_config
          (pubkey_to_address m.p (some key.public_key))
          (only_validator m key ∷ [])
        ≡ (files, true)
    pub opens : m.open_file before.db ≡ some stored
    pub loads : load_genesis_from_file m.json files ≡ some g
    pub applies :
        apply_genesis m.p m.store
          (record { db = stored; cfg = default_chain_config })
          g.allocation
          g.validators
        ≡ (applied, true)
    pub creates : new_chain m.json m.os files (some default_chain_config) ≡ some c
    pub appends :
        append_block m.json m.os c (genesis_block m.p (pubkey_to_address m.p (some key.public_key)))
        ≡ returned (appended, true)
    pub left_files : after.files ≡ appended.disk
    pub left_db : after.db ≡ applied.db
    pub saves : (save_key m.keys before.key_disk m.key_path (some key)).1 ≡ true
    pub left_keys : after.key_disk ≡ (save_key m.keys before.key_disk m.key_path (some key)).0

  pub run_init-Initialised :
      (before after : DataDir) → run_init m before ≡ done after → Initialised before after
  unfolding run_init
  run_init-Initialised before after e =
      let (dirs, e0) = if-done (not (m.os.make_dirs before.files)) _ e in
      let (key, generated, e1) = and_run-done (checked m.generated) _ e0 in
      let addr = pubkey_to_address m.p (some key.public_key) in
      let (key_disk, saved, e2) =
        and_run-done (succeeded (save_key m.keys before.key_disk m.key_path (some key))) _ e1 in
      let key_saved =
        succeeded-done (save_key m.keys before.key_disk m.key_path (some key)) saved in
      let written =
        write_genesis_file m.p m.json m.os before.files default_chain_config addr
          (only_validator m key ∷ []) in
      let (files, writes, e3) = and_run-done (succeeded written) _ e2 in
      let (s, opened, e4) = and_run-done (opened_state m before.db) _ e3 in
      let (stored, opens, same) = opened_state-done before.db opened in
      let loaded = load_genesis_from_file m.json files in
      let (g, loads, e5) = and_run-done (checked loaded) _ e4 in
      let (applied, applies, e6) =
        and_run-done (succeeded (apply_genesis m.p m.store s g.allocation g.validators)) _ e5 in
      let created = new_chain m.json m.os files (some default_chain_config) in
      let (c, creates, e7) = and_run-done (checked created) _ e6 in
      let (appended, appends, e8) =
        and_run-done (called (append_block m.json m.os c (genesis_block m.p addr))) _ e7 in
      let left : record { files = appended.disk; db = applied.db; key_disk = key_disk } ≡ after =
        done_injective _ after e8 in
      record {
        key = key;
        generated = checked-done m.generated generated;
        files = files;
        stored = stored;
        g = g;
        applied = applied;
        c = c;
        appended = appended;
        writes = succeeded-done written writes;
        opens = opens;
        loads = checked-done loaded loads;
        applies =
            ap (λ x. apply_genesis m.p m.store x g.allocation g.validators) same
            ∙ succeeded-done (apply_genesis m.p m.store s g.allocation g.validators) applies;
        creates = checked-done created creates;
        appends = called-done (append_block m.json m.os c (genesis_block m.p addr)) appends;
        left_files = ap (λ (d : DataDir). d.files) (sym left);
        left_db = ap (λ (d : DataDir). d.db) (sym left);
        saves = ap (λ (r : KeyDisk × Bool). r.1) key_saved;
        left_keys =
            ap (λ (d : DataDir). d.key_disk) (sym left)
            ∙ ap (λ (r : KeyDisk × Bool). r.0) (sym key_saved);
      }

  -- The node that `runNodeLoop` made of a directory, and the steps to it.
  pub record Began (dial : Bytes → Option Conn) (seeds : List Bytes) (listen : Bytes)
      (dir : DataDir) (made : World × Node) : Type 0 where
    pub c : Chain
    pub g : GenesisFile
    pub ensured : Chain × Db
    pub stored : Db
    pub key : PrivateKey
    pub creates : new_chain m.json m.os dir.files (some default_chain_config) ≡ some c
    pub ensures : ensure_genesis m c dir.db g ≡ done ensured
    pub opens : m.open_file ensured.1 ≡ some stored
    pub node :
        (
          world_of m key listen g,
          first_node m dial seeds listen ensured.0
              (record { db = stored; cfg = default_chain_config }),
        )
        ≡ made

  pub start-Began :
      (listens : Bool) (dial : Bytes → Option Conn) (seeds : List Bytes) (listen : Bytes)
      (dir : DataDir) (made : World × Node)
      → start m listens dial seeds listen dir ≡ done made
      → Began dial seeds listen dir made
  unfolding start
  start-Began listens dial seeds listen dir made e =
      let created = new_chain m.json m.os dir.files (some default_chain_config) in
      let (c, creates, e0) = and_run-done (checked created) _ e in
      let (g, loads, e1) = and_run-done (checked (load_genesis_from_file m.json c.disk)) _ e0 in
      let (ensured, ensures, e2) = and_run-done (ensure_genesis m c dir.db g) _ e1 in
      let (s, opened, e3) = and_run-done (opened_state m ensured.1) _ e2 in
      let (stored, opens, same) = opened_state-done ensured.1 opened in
      let (loaded, found, e4) =
        and_run-done (checked (load_key m.keys dir.key_disk m.key_path)) _ e3 in
      let (key, is_key, e5) = and_run-done (pointed loaded) _ e4 in
      let (genesis, has, e6) =
        and_run-done (pointed (block_of (load_genesis_from_file m.json ensured.0.disk))) _ e5 in
      let node = λ (x : State). first_node m dial seeds listen ensured.0 x in
      let left : (world_of m key listen g, node s) ≡ made =
        done_injective _ made (unless-done listens _ e6) in
      record {
        c = c;
        g = g;
        ensured = ensured;
        stored = stored;
        key = key;
        creates = checked-done created creates;
        ensures = ensures;
        opens = opens;
        node =
            ◌∙◌ {b = (world_of m key listen g, node s)}
              (ap (λ (x : State). (world_of m key listen g, node x)) same) left;
      }
