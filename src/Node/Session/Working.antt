-- ===== src/Node/Session/Working.antt =====
-- The bodies of the handlers that hold `blockMu`, on a node whose pool, peers and chain lock are in order.
pub mod Blocks
pub mod Production
use chainlang.Prelude.{
  ◌≡◌, refl, ap, sym, ◌⊎◌, some, Bytes, subst, Bool, true, false, not, ◌&&◌, Option, if◌then◌else◌,
  is_some, bytes_eq,
}
use chainlang.Core.Types.{Block, validate_block}
use chainlang.Core.Files.{Disk}
use chainlang.Core.Chain.{held_by_writer, has_block, read_block}
use chainlang.Crypto.Signature.{sign}
use chainlang.Core.Chain.Free.{IsFree, last_read, has_block-IsFree, last_block-IsFree}
use chainlang.State.Store.{State}
use chainlang.State.Ledger.{apply_block}
use chainlang.Mempool.Invariant.{IsValidPool}
use chainlang.P2p.Peers.Bounds.{IsValidSet}
use chainlang.Node.{
  World, send, broadcast_block, Node, Run, finished, hung, with_chain, with_last, unlocking, adopt,
  record_signed, last_or_nil, extends_tip, signs_twice, accepts_producer, validator_set,
}
use chainlang.Node.Adopting.{adopt_hangs, adopt_fails}
use chainlang.Node.Receiving.{
  adopt_if, unless_twice, accept_block, accept_if, check_known, check_if, check_block,
}
use chainlang.Node.Session.{peers, left_by}

module _ (w : World) (first : Bytes) where
  -- The hash `first`, or that of a block which the node has signed.
  abbrev pub IsOwn : Bytes → Type 0
  IsOwn h = (h ≡ first) ⊎ ((b : Block) × (h ≡ b.hash) × (sign w.p w.key b.hash ≡ some b.signature))

  pub record IsSound (n : Node) : Type 0 where
    pub pool : IsValidPool w.p n.pool
    pub peers : IsValidSet n.peers
    pub idle : n.block_mu ≡ false → IsFree n.chain
    pub own : n.block_mu ≡ false → IsOwn n.chain.last_hash
    pub stopped : n.block_mu ≡ true → n.chain.mu ≡ held_by_writer

  -- A node inside a handler that holds `blockMu`.
  pub record IsWorking (n : Node) : Type 0 where
    pub pool : IsValidPool w.p n.pool
    pub peers : IsValidSet n.peers
    pub free : IsFree n.chain
    pub held : n.block_mu ≡ true
    pub own : IsOwn n.chain.last_hash

  -- What a handler's body ends with.
  abbrev pub Ends : Run → Type 0
  Ends (finished n) = IsWorking n
  Ends (hung n) =
      IsValidPool w.p n.pool
      × IsValidSet n.peers
      × (n.block_mu ≡ true)
      × (n.chain.mu ≡ held_by_writer)

  pub unlocking-IsSound : (r : Run) → Ends r → IsSound (left_by (unlocking r))
  unlocking-IsSound (finished n) h = record {
    pool = h.pool;
    peers = h.peers;
    idle = λ _. h.free;
    own = λ _. h.own;
    stopped = λ e. cc e;
  }
  unlocking-IsSound (hung n) h = record {
    pool = h.0;
    peers = h.1;
    idle = λ e. cc (e, h.2);
    own = λ e. cc (e, h.2);
    stopped = λ _. h.3;
  }

  pub locking-IsSound :
      (n : Node) (body : Node → Run) (t : Bool)
      → n.block_mu ≡ t
      → IsSound n
      → ((m : Node) → IsWorking m → Ends (body m))
      → IsSound (left_by (if t then hung n else unlocking (body (record n { block_mu = true }))))
  locking-IsSound n body true e h k = h
  locking-IsSound n body false e h k = unlocking-IsSound (body (record n { block_mu = true })) (
      k (record n { block_mu = true })
        (record { pool = h.pool; peers = h.peers; free = h.idle e; held = refl; own = h.own e }))

  -- A step of a handler that leaves pool, peers and both locks.
  abbrev pub on_state : Node → State → Node
  on_state n s = record n { state = s }

  pub IsWorking-disk :
      (n : Node) (d : Disk)
      → IsWorking n
      → IsWorking (record n { chain = record n.chain { disk = d } })
  IsWorking-disk n d h = record {
    pool = h.pool;
    peers = h.peers;
    free = h.free;
    held = h.held;
    own = h.own;
  }

  pub IsWorking-state : (n : Node) (s : State) → IsWorking n → IsWorking (on_state n s)
  IsWorking-state n s h = record {
    pool = h.pool;
    peers = h.peers;
    free = h.free;
    held = h.held;
    own = h.own;
  }

  pub with_last-Ends :
      (n : Node) (next : Node → Option Block → Run)
      → IsWorking n
      → ((last : Option Block) → Ends (next n last))
      → Ends (with_last w n next)
  with_last-Ends n next h k =
      subst Ends
        (sym (
          ap (λ o. with_chain n o λ m last. next m (last_or_nil last))
            (last_block-IsFree w.json n.chain h.free)))
        (k (last_or_nil (last_read w.json n.chain)))

  pub with_known-Ends :
      (n : Node) (b : Block) (next : Node → Bool → Run)
      → IsWorking n
      → ((known : Bool) → Ends (next n known))
      → Ends (with_chain n (has_block w.json n.chain b.hash) next)
  with_known-Ends n b next h k =
      subst Ends
        (sym (ap (λ o. with_chain n o next) (has_block-IsFree w.json n.chain h.free b.hash)))
        (k (is_some (read_block w.json n.chain.disk b.hash)))

  pub adopt-Ends :
      (n : Node) (b : Block) (next : Node → Run) → IsWorking n → Ends (adopt w n b finished next)
  adopt-Ends n b next h = go (apply_block w.store n.state b) refl
    where
      go : (r : State × Bool) → apply_block w.store n.state b ≡ r → Ends (adopt w n b finished next)
      go (s, true) applies =
          subst Ends (sym (adopt_hangs w n b finished next h.free applies))
            (h.pool, h.peers, h.held, refl)
      go (s, false) applies =
          subst Ends (sym (adopt_fails w n b finished next h.free applies))
            (record { pool = h.pool; peers = h.peers; free = h.free; held = h.held; own = h.own })

  abbrev pub Keeps : (Node → Run) → Type 0
  Keeps rest = (m : Node) → IsWorking m → Ends (rest m)

  pub adopt_if-Ends : (t : Bool) (n : Node) (b : Block) → IsWorking n → Ends (adopt_if w t n b)
  unfolding adopt_if
  adopt_if-Ends false n b h = h
  adopt_if-Ends true n b h = adopt-Ends n b (λ done. finished (send done (broadcast_block b))) h

  pub unless_twice-Ends :
      (t : Bool) (n : Node) (b : Block) → IsWorking n → Ends (unless_twice w t n b)
  unfolding unless_twice
  unless_twice-Ends true n b h = record {
    pool = h.pool;
    peers = h.peers;
    free = h.free;
    held = h.held;
    own = h.own;
  }
  unless_twice-Ends false n b h =
      let m : Node = record n { signed = record_signed n.signed b } in
      let hm : IsWorking m = record {
        pool = h.pool;
        peers = h.peers;
        free = h.free;
        held = h.held;
        own = h.own;
      } in
      with_last-Ends m (λ k last. adopt_if w (extends_tip last b) k b) hm
        (λ last. adopt_if-Ends (extends_tip last b) m b hm)

  pub accept_if-Ends : (t : Bool) (n : Node) (b : Block) → IsWorking n → Ends (accept_if w t n b)
  unfolding accept_if accept_block
  accept_if-Ends false n b h = h
  accept_if-Ends true n b h = unless_twice-Ends (signs_twice n.signed b) n b h

  pub check_if-Ends : (t : Bool) (n : Node) (b : Block) → IsWorking n → Ends (check_if w t n b)
  unfolding check_if check_known
  check_if-Ends false n b h = h
  check_if-Ends true n b h =
      with_known-Ends n b (λ m known. check_known w m b known) h
        (λ known. accept_if-Ends (not known && accepts_producer (validator_set w n.state) b) n b h)

  pub check_block-Ends : (b : Block) → Keeps (λ n. check_block w n b)
  unfolding check_block
  check_block-Ends b n h = check_if-Ends (validate_block w.p b) n b h
