-- ===== src/Node/Starting/Soundness.antt =====
-- A node that was started is idle and sound, and stays sound.
use chainlang.Prelude.{
  ℕ, ◌/◌, ◌≡◌, inl, refl, sym, subst, Bool, true, false, not, Option, none, some, List, Bytes,
  if◌then◌else◌,
}
use chainlang.Config.{ChainConfig, default_chain_config}
use chainlang.Go.Word.{pos}
use chainlang.LevelDb.{Db}
use chainlang.Crypto.Hash.{is_zero, zero_hash}
use chainlang.Crypto.Keyfile.{load_key}
use chainlang.Core.Types.{Block}
use chainlang.Core.Files.{Disk, Os, Json, GenesisFile, meta_path}
use chainlang.Core.Genesis.{load_genesis_from_file}
use chainlang.Core.Chain.{Chain, held_by_readers, append_block}
use chainlang.Core.Chain.Free.{IsFree, append_block-Advanced}
use chainlang.Core.Chain.Loading.{new_chain, from_meta, with_meta}
use chainlang.State.Store.{State}
use chainlang.Mempool.Invariant.{new-IsValidPool}
use chainlang.P2p.Peers.{Conn}
use chainlang.P2p.Peers.Bounds.{Reachable-IsValidSet, created, seeded}
use chainlang.Node.{World, Node}
use chainlang.Node.Receiving.Outcome.{IsIdle}
use chainlang.Node.Session.{Event, after_events}
use chainlang.Node.Session.Working.{IsSound}
use chainlang.Node.Session.Invariant.{after_events-IsSound}
use chainlang.Node.Starting.{
  Machine, DataDir, Attempt, done, refused, panicked, waited, ◌and_run◌, checked, succeeded,
  pointed, called, block_of, opened_state, append_genesis, apply_file, ensure_genesis, world_of,
  first_node, start,
}

-- What holds of the result if there is one.
abbrev pub Holds {ℓ} : {A : Type ℓ} → (A → Type 0) → Attempt A → Type 0
Holds P (done a) = P a
Holds P refused = Unit
Holds P panicked = Unit
Holds P waited = Unit

module _ {ℓ κ} {A : Type ℓ} {B : Type κ} (P : A → Type 0) (Q : B → Type 0) where
  Holds-and_run :
      (x : Attempt A) (next : A → Attempt B)
      → Holds P x
      → ((a : A) → P a → Holds Q (next a))
      → Holds Q (x and_run next)
  Holds-and_run (done a) next h k = k a h
  Holds-and_run refused next h k = tt
  Holds-and_run panicked next h k = tt
  Holds-and_run waited next h k = tt

module _ {ℓ κ} {A : Type ℓ} {B : Type κ} (Q : B → Type 0) where
  and_run_any :
      (x : Attempt A) (next : A → Attempt B)
      → ((a : A) → Holds Q (next a))
      → Holds Q (x and_run next)
  and_run_any (done a) next k = k a
  and_run_any refused next k = tt
  and_run_any panicked next k = tt
  and_run_any waited next k = tt

-- The lock is free, and the disk is this one.
abbrev pub IsLoaded : Disk → Chain → Type 0
IsLoaded d c = IsFree c × (c.disk ≡ d)

from_meta-IsLoaded :
    (json : Json) (os : Os) (d : Disk) (cfg : ChainConfig) (text : Option Bytes)
    → Holds (IsLoaded d) (checked (from_meta json os d cfg text))
from_meta-IsLoaded json os d cfg none = go (os.is_missing d meta_path)
  where
    go :
        (t : Bool)
        → Holds (IsLoaded d) (
            checked (
              if t
              then some (record {
                mu = held_by_readers 0;
                disk = d;
                cfg = cfg;
                height = 0;
                last_hash = zero_hash;
              })
              else none))
    go true = (refl, refl)
    go false = tt
from_meta-IsLoaded json os d cfg (some text) = go (json.unmarshal_meta text)
  where
    go : (o : Option (ℕ × Bytes)) → Holds (IsLoaded d) (checked (with_meta d cfg o))
    go none = tt
    go (some (height, last)) = (refl, refl)

pub new_chain-IsLoaded :
    (json : Json) (os : Os) (d : Disk) (cfg : ChainConfig)
    → Holds (IsLoaded d) (checked (new_chain json os d (some cfg)))
unfolding new_chain
new_chain-IsLoaded json os d cfg = go (os.make_dirs d)
  where
    go :
        (t : Bool)
        → Holds
            (IsLoaded d)
            (checked (if not t then none else from_meta json os d cfg (d meta_path)))
    go true = from_meta-IsLoaded json os d cfg (d meta_path)
    go false = tt

module _ (m : Machine) where
  called-IsFree :
      (c : Chain) (b : Block) → IsFree c → Holds IsFree (called (append_block m.json m.os c b))
  called-IsFree c b free =
      let (r, returns, advanced) = append_block-Advanced m.json m.os c free b in
      subst (λ o. Holds IsFree (called o)) (sym returns) (good r.0 r.1 advanced.free_after)
    where
      good : (x : Chain) (t : Bool) → IsFree x → Holds IsFree (succeeded (x, t))
      good x true h = h
      good x false h = tt

  append_genesis-IsFree :
      (c : Chain) (o : Option Block) → IsFree c → Holds IsFree (append_genesis m c o)
  append_genesis-IsFree c none free = tt
  append_genesis-IsFree c (some b) free = called-IsFree c b free

  abbrev HasFreeChain : Chain × Db → Type 0
  HasFreeChain r = IsFree r.0

  ensure_genesis-HasFreeChain :
      (c : Chain) (db : Db) (g : GenesisFile)
      → IsFree c
      → Holds HasFreeChain (ensure_genesis m c db g)
  unfolding ensure_genesis
  ensure_genesis-HasFreeChain c db g free = go (is_zero c.last_hash)
    where
      appends : Db → Attempt (Chain × Db)
      appends stored =
          append_genesis m c (block_of (load_genesis_from_file m.json c.disk)) and_run λ appended.
          done (appended, stored)

      creates : Attempt (Chain × Db)
      creates =
          opened_state m db and_run λ s. apply_file m c s g and_run λ applied. appends applied.db

      go : (t : Bool) → Holds HasFreeChain (if not t then done (c, db) else creates)
      go false = free
      go true = and_run_any HasFreeChain (opened_state m db) _ λ s.
          and_run_any HasFreeChain (apply_file m c s g) _ λ applied.
            Holds-and_run IsFree HasFreeChain
              (append_genesis m c (block_of (load_genesis_from_file m.json c.disk))) _
              (append_genesis-IsFree c (block_of (load_genesis_from_file m.json c.disk)) free)
              λ appended h. h

  abbrev IsStarted : World × Node → Type 0
  IsStarted r = IsIdle r.1 × IsSound r.0 r.1.chain.last_hash r.1

  first_node-IsSound :
      (w : World) (dial : Bytes → Option Conn) (seeds : List Bytes) (listen : Bytes) (c : Chain)
      (s : State)
      → IsFree c
      → IsStarted (w, first_node m dial seeds listen c s)
  first_node-IsSound w dial seeds listen c s free = (
    record { unlocked = refl; free = free },
    record {
      pool = new-IsValidPool w.p (pos (default_chain_config.block_size_limit / 500));
      peers = Reachable-IsValidSet (seeded dial created);
      idle = λ e. free;
      own = λ e. inl refl;
      stopped = λ e. cc e;
    },
  )

  started :
      (listens : Bool) (dial : Bytes → Option Conn) (seeds : List Bytes) (listen : Bytes)
      (data_dir : DataDir)
      → Holds IsStarted (start m listens dial seeds listen data_dir)
  unfolding start
  started listens dial seeds listen data_dir =
      Holds-and_run (IsLoaded data_dir.files) IsStarted
        (checked (new_chain m.json m.os data_dir.files (some default_chain_config))) _
        (new_chain-IsLoaded m.json m.os data_dir.files default_chain_config)
        λ c loaded_chain.
          and_run_any IsStarted (checked (load_genesis_from_file m.json c.disk)) _ λ g.
            Holds-and_run HasFreeChain IsStarted (ensure_genesis m c data_dir.db g) _
              (ensure_genesis-HasFreeChain c data_dir.db g loaded_chain.0)
              λ ensured free_after. and_run_any IsStarted (opened_state m ensured.1) _ λ s.
                and_run_any IsStarted (checked (load_key m.keys data_dir.key_disk m.key_path)) _
                  λ loaded. and_run_any IsStarted (pointed loaded) _ λ key.
                    and_run_any IsStarted
                      (pointed (block_of (load_genesis_from_file m.json ensured.0.disk))) _
                      λ genesis. go (world_of m key listen g) ensured.0 s free_after listens
    where
      go :
          (w : World) (c : Chain) (s : State)
          → IsFree c
          → (t : Bool)
          → Holds IsStarted (if t then done (w, first_node m dial seeds listen c s) else refused)
      go w c s free true = first_node-IsSound w dial seeds listen c s free
      go w c s free false = tt

  pub start-IsSound :
      (listens : Bool) (dial : Bytes → Option Conn) (seeds : List Bytes) (listen : Bytes)
      (data_dir : DataDir) (w : World) (n : Node) (es : List Event)
      → start m listens dial seeds listen data_dir ≡ done (w, n)
      → IsSound w n.chain.last_hash (after_events w n es)
  start-IsSound listens dial seeds listen data_dir w n es e =
      let (idle, sound) = subst (Holds IsStarted) e (started listens dial seeds listen data_dir) in
      after_events-IsSound w n.chain.last_hash es n sound
