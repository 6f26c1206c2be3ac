-- ===== src/Node/Starting/Lifetime.antt =====
-- A node from an empty directory: `-init`, then `-run`, and the events after them.
use mathlib.Core.Option.{some-injective}
use mathlib.Core.List.{reverse}
use chainlang.Prelude.{
  ◌<◌, ◌^◌, ◌≡◌, ◌⊎◌, inl, inr, refl, ap, ap₂, sym, ◌∙◌, subst, Bool, false, Option, some, List, [],
  ◌∷◌, Bytes, All, fold, length, arith,
}
use chainlang.Config.{default_chain_config}
use chainlang.Crypto.Primitives.{PrivateKey}
use chainlang.Crypto.Hash.{is_zero, is_zero-zero_hash}
use chainlang.Crypto.Signature.{pubkey_to_address}
use chainlang.LevelDb.{Db, not_found}
use chainlang.Core.Types.{Block, genesis_block}
use chainlang.Core.Files.{GenesisFile}
use chainlang.Core.Chain.{Chain}
use chainlang.Core.Chain.Growing.{Weakness, nonzero_hash}
use chainlang.State.Ledger.Loading.{stored_balance}
use chainlang.State.Replay.Determined.{balances_after, replay-balance}
use chainlang.P2p.Peers.{Conn}
use chainlang.Node.{World, Node}
use chainlang.Node.Api.Explorer.{HasBranch}
use chainlang.Node.Session.{Event, after_events}
use chainlang.Node.Session.History.{after_events-Grown}
use chainlang.Node.Session.History.Quiet.{brings_blocks}
use chainlang.Node.Session.History.Growth.{Grown}
use chainlang.Node.Starting.{Machine, DataDir, Attempt, done, run_init, start, world_of, first_node}
use chainlang.Node.Starting.Inversion.{Initialised, run_init-Initialised, Began, start-Began}
use chainlang.Node.Starting.Fresh.{
  Trusted, genesis_balances, ensure_genesis_ends, genesis, genesis_valid, appended, tipped,
  new_chain-tipped, opened, opened-balance, opened-HoldsWords,
}

-- The node's chain is produced blocks on top of this block, the state is that after them, and each
-- balance is what the configuration allocates and then these blocks make of it.
pub record Accounted (w : World) (first : Block) (n m : Node) : Type 0 where
  pub grown : Grown w n.state (first ∷ []) m
  pub balance :
      (a : Bytes)
      → stored_balance m.state a ≡ fold balances_after genesis_balances (reverse grown.fresh) a

done_same : {x : Attempt (Chain × Db)} {a b : Chain × Db} → x ≡ done a → x ≡ done b → a ≡ b
done_same e f = cc (e, f)

module _ (m : Machine) (trusted : Trusted m) (before dir : DataDir)
    (init : Initialised m before dir) (empty : (k : Bytes) → before.db.get k ≡ not_found)
    (dial : Bytes → Option Conn) (seeds : List Bytes) (listen : Bytes) where
  abbrev begun : PrivateKey → GenesisFile → World × Node
  begun key g = (
    world_of m key listen g,
    first_node m dial seeds listen (tipped m trusted before dir init)
        (opened m trusted before dir init),
  )

  abbrev first : Block
  first = genesis m trusted before dir init

  begun-HasBranch :
      (key : PrivateKey) (g : GenesisFile)
      → is_zero first.hash ≡ false
      → HasBranch (begun key g).0 (begun key g).1 first []
  unfolding genesis_block
  begun-HasBranch key g nonzero =
      let (reads, tip, height) = (appended m trusted before dir init).on_success refl in
      record {
        free = refl;
        last_hash = refl;
        height = refl;
        nonzero = nonzero;
        branch = (reads, refl, is_zero-zero_hash);
      }

  begun-Accounted :
      (key : PrivateKey) (g : GenesisFile) (es : List Event)
      → is_zero first.hash ≡ false
      → All (λ e. brings_blocks e ≡ false) es
      → length es < 2 ^ 64
      → Accounted
          (begun key g).0
          first
          (begun key g).1
          (after_events (begun key g).0 (begun key g).1 es)
        ⊎ Weakness m.p
  unfolding genesis_block
  begun-Accounted key g es nonzero quiet below =
      let (w, n) = begun key g in
      let grows =
        after_events-Grown w trusted.keeps trusted.reliable n first [] es
          (record { unlocked = refl; free = refl }) (begun-HasBranch key g nonzero)
          (genesis_valid m trusted before dir init, tt) quiet (omega arith) in
      elim grows [
        | inr weak ↦ inr weak
        | inl grown ↦ inl (record {
          grown = grown;
          balance = λ a.
              replay-balance m.store trusted.writes_batches (reverse grown.fresh)
                (opened m trusted before dir init) genesis_balances a
                (opened-HoldsWords m trusted before dir init empty)
                (opened-balance m trusted before dir init empty) grown.replays;
        })
      ]

  -- What `-run` makes of the directory.
  Began-begun :
      {made : World × Node} (began : Began m dial seeds listen dir made)
      → is_zero first.hash ≡ false
      → begun began.key began.g ≡ made
  Began-begun began nonzero =
      let found : began.c ≡ tipped m trusted before dir init =
        some-injective _ _ (sym began.creates ∙ new_chain-tipped m trusted before dir init) in
      let same : began.ensured ≡ (began.c, dir.db) = done_same began.ensures (
        ensure_genesis_ends m trusted began.c dir.db began.g
          (ap (λ (c : Chain). is_zero c.last_hash) found ∙ nonzero)) in
      let chain : tipped m trusted before dir init ≡ began.ensured.0 =
        sym (ap (λ (r : Chain × Db). r.0) same ∙ found) in
      let stored : init.applied.db ≡ began.stored =
        sym init.left_db
        ∙ sym (ap (λ (r : Chain × Db). r.1) same)
        ∙ some-injective _ _ (sym (trusted.reopens began.ensured.1) ∙ began.opens) in
      ap₂
        (λ (c : Chain) (db : Db). (
          world_of m began.key listen began.g,
          first_node m dial seeds listen c (record { db = db; cfg = default_chain_config }),
        ))
        chain stored
      ∙ began.node

module _ (m : Machine) (trusted : Trusted m) where
  -- Where `-init` on a directory with an empty database and then `-run` went through, after fewer than
  -- 2^64 events that bring no block of a peer, the node's chain is the genesis block of the generated
  -- key and on it the blocks that the node has produced and signed, linked, valid and readable; it is
  -- idle; its state is that after these blocks, and every balance is what they specify from the
  -- configuration's allocation. Or there is a collision of SHA-256, or an input whose digest is zero.
  -- The disk and the JSON package do not fail, and directories can be made; the disk keeps what is
  -- written, JSON reads back what it wrote and tells payloads apart; digests are of bytes, a batch is
  -- written whole, and a database that is opened again has what was stored.
  pub after_events-run_init :
      (before dir : DataDir) (listens : Bool) (dial : Bytes → Option Conn) (seeds : List Bytes)
      (listen : Bytes) (w : World) (n : Node) (es : List Event)
      → ((k : Bytes) → before.db.get k ≡ not_found)
      → run_init m before ≡ done dir
      → start m listens dial seeds listen dir ≡ done (w, n)
      → All (λ e. brings_blocks e ≡ false) es
      → length es < 2 ^ 64
      → ((key : PrivateKey) × (m.generated ≡ some key)
          × Accounted w
              (genesis_block m.p (pubkey_to_address m.p (some key.public_key)))
              n
              (after_events w n es))
        ⊎ Weakness m.p
  after_events-run_init before dir listens dial seeds listen w n es empty inits starts quiet below =
      let init = run_init-Initialised m before dir inits in
      let began = start-Began m listens dial seeds listen dir (w, n) starts in
      let one = genesis m trusted before dir init in
      elim (nonzero_hash m.p one (genesis_valid m trusted before dir init).valid) [
        | inr weak ↦ inr weak
        | inl nonzero ↦
            let same =
              Began-begun m trusted before dir init empty dial seeds listen began nonzero in
            let result =
              subst
                (λ (made : World × Node).
                  Accounted made.0 one made.1 (after_events made.0 made.1 es) ⊎ Weakness m.p)
                same
                (begun-Accounted m trusted before dir init empty dial seeds listen began.key began.g
                  es nonzero quiet below) in
            elim result [
              | inr weak ↦ inr weak
              | inl accounted ↦ inl (init.key, init.generated, accounted)
            ]
      ]
