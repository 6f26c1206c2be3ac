-- ===== src/Node/Session/Stopped.antt =====
-- A node of which a handler waits for ever, with `blockMu` and the lock of the chain.
use chainlang.Prelude.{
  ℕ, ◌≡◌, refl, ap, sym, ◌∙◌, subst, Bool, true, false, Option, none, some, List, [], ◌∷◌, Bytes,
  if◌then◌else◌, bytes_eq, ◌==◌, ◌||◌,
}
use chainlang.Go.Word.{ℤ}
use chainlang.Core.Types.{Transaction, Block}
use chainlang.Core.Files.{Disk}
use chainlang.Core.Chain.{Chain, held_by_writer, get_blocks_from, last_block}
use chainlang.State.Store.{State}
use chainlang.State.Ledger.{apply_block}
use chainlang.Mempool.{Mempool, AddError, add}
use chainlang.P2p.Peers.{Conn}
use chainlang.Node.{
  World, Node, Run, hung, with_chain, with_last, locking, unlocking, record_signed,
}
use chainlang.Node.Adopting.{waiting}
use chainlang.Node.Receiving.{
  on_new_block, on_new_tx, on_get_blocks, on_hello, on_peers, added, check_block,
}
use chainlang.Node.Receiving.Outcome.{
  IsIdle, IsAcceptable, Received, ignored, slashed, adopted, on_new_block-Received,
}
use chainlang.Node.Syncing.{on_blocks, sync, request_blocks}
use chainlang.Node.Producing.{produce, produce_after}
use chainlang.Node.Session.{
  Event, accepted, received, closed, ticked, woken, Message, hello, get_blocks, blocks, new_block,
  new_tx, get_peers, peers, handle, occur, left_by, after_events,
}

-- `m` is `n`, or differs from it in the pool, the peers and the messages sent.
pub record SameLedger (n m : Node) : Type 0 where
  pub block_mu : m.block_mu ≡ n.block_mu
  pub chain : m.chain ≡ n.chain
  pub state : m.state ≡ n.state

SameLedger-trans : {a b c : Node} → SameLedger a b → SameLedger b c → SameLedger a c
SameLedger-trans h k = record {
  block_mu = k.block_mu ∙ h.block_mu;
  chain = k.chain ∙ h.chain;
  state = k.state ∙ h.state;
}

-- Some handler keeps `blockMu` and the lock of the chain.
pub record IsStopped (n : Node) : Type 0 where
  pub held : n.block_mu ≡ true
  pub chain_held : n.chain.mu ≡ held_by_writer

module _ (w : World) where
  same : (n : Node) → SameLedger n n
  same n = record { block_mu = refl; chain = refl; state = refl }

  waits : {n : Node} {r : Run} → r ≡ hung n → SameLedger n (left_by r)
  waits {n} e = subst (λ r. SameLedger n (left_by r)) (sym e) (same n)

  pub on_new_tx-SameLedger : (n : Node) (tx : Transaction) → SameLedger n (on_new_tx w n tx)
  unfolding on_new_tx
  on_new_tx-SameLedger n tx = go (add w.p (some n.state) n.pool tx)
    where
      go : (r : Mempool × Option AddError) → SameLedger n (added w n tx r)
      go (pool, none) = record { block_mu = refl; chain = refl; state = refl }
      go (pool, some e) = record { block_mu = refl; chain = refl; state = refl }

  SameLedger-if :
      (t : Bool) {n a b : Node}
      → SameLedger n a
      → SameLedger n b
      → SameLedger n (if t then a else b)
  SameLedger-if true h k = h
  SameLedger-if false h k = k

  pub on_hello-SameLedger :
      (dial : Bytes → Option Conn) (n : Node) (addr : Bytes) → SameLedger n (on_hello w dial n addr)
  unfolding on_hello
  on_hello-SameLedger dial n addr =
      SameLedger-if (addr == [] || addr == w.listen) (same n)
        (record { block_mu = refl; chain = refl; state = refl })

  pub on_peers-SameLedger :
      (dial : Bytes → Option Conn) (n : Node) (addrs : List Bytes)
      → SameLedger n (on_peers w dial n addrs)
  unfolding on_peers
  on_peers-SameLedger dial n [] = same n
  on_peers-SameLedger dial n (addr ∷ addrs) =
      SameLedger-trans (on_hello-SameLedger dial n addr)
        (on_peers-SameLedger dial (on_hello w dial n addr) addrs)

  module _ (n : Node) (stopped : IsStopped n) where
    locking-SameLedger : (body : Node → Run) → SameLedger n (left_by (locking n body))
    locking-SameLedger body = waits (
        ap (λ t. if t then hung n else unlocking (body (record n { block_mu = true })))
          stopped.held)

    on_get_blocks_waits : (fuel from : ℕ) (max : ℤ) → on_get_blocks w fuel n from max ≡ hung n
    unfolding on_get_blocks get_blocks_from
    on_get_blocks_waits fuel from max = rw (stopped.chain_held) refl

    request_blocks_waits : request_blocks w n ≡ hung n
    unfolding request_blocks last_block
    request_blocks_waits = rw (stopped.chain_held) refl

    handle-SameLedger :
        (fuel : ℕ) (dial : Bytes → Option Conn) (message : Message)
        → SameLedger n (left_by (handle w fuel dial n message))
    unfolding handle on_blocks on_new_block
    handle-SameLedger fuel dial (hello addr) = on_hello-SameLedger dial n addr
    handle-SameLedger fuel dial (get_blocks from max) = waits (on_get_blocks_waits fuel from max)
    handle-SameLedger fuel dial (blocks []) = same n
    handle-SameLedger fuel dial (blocks (b ∷ bs)) =
        locking-SameLedger (λ m. with_last w m (λ k last. sync w k last b bs))
    handle-SameLedger fuel dial (new_block b) = locking-SameLedger (λ m. check_block w m b)
    handle-SameLedger fuel dial (new_tx tx) = on_new_tx-SameLedger n tx
    handle-SameLedger fuel dial get_peers = same n
    handle-SameLedger fuel dial (peers addrs) = on_peers-SameLedger dial n addrs

    occur-SameLedger : (e : Event) → SameLedger n (left_by (occur w e n))
    unfolding occur produce
    occur-SameLedger (accepted c remote) = record { block_mu = refl; chain = refl; state = refl }
    occur-SameLedger (received fuel dial message) = handle-SameLedger fuel dial message
    occur-SameLedger (closed remote) = record { block_mu = refl; chain = refl; state = refl }
    occur-SameLedger (ticked now) =
        locking-SameLedger (λ m. with_chain m (last_block w.json m.chain) (produce_after w now))
    occur-SameLedger woken = waits request_blocks_waits

  SameLedger-IsStopped : {n m : Node} → SameLedger n m → IsStopped n → IsStopped m
  SameLedger-IsStopped h s = record {
    held = h.block_mu ∙ s.held;
    chain_held = ap (λ (c : Chain). c.mu) h.chain ∙ s.chain_held;
  }

  pub events-SameLedger :
      (es : List Event) (n : Node) → IsStopped n → SameLedger n (after_events w n es)
  events-SameLedger [] n stopped = same n
  events-SameLedger (e ∷ es) n stopped =
      let one = occur-SameLedger n stopped e in
      SameLedger-trans one (events-SameLedger es _ (SameLedger-IsStopped one stopped))

pub Received-adopted :
    (w : World) (n : Node) (b : Block) {s : State} {r : Run}
    → IsAcceptable w n b
    → apply_block w.store n.state b ≡ (s, true)
    → Received w n b r
    → (d : Disk) × (r
        ≡ hung (waiting (record n { block_mu = true; signed = record_signed n.signed b }) d s b))
Received-adopted w n b ok applies (ignored idle tip state why) =
    cc (why ok, ap (λ (q : State × Bool). q.1) applies)
Received-adopted w n b ok applies (slashed idle tip twice state) = cc (twice, ok.once)
Received-adopted w n b ok applies (adopted d ok' applies') = (d, cc (applies, applies'))

-- Once an idle node has received an acceptable block that `ApplyBlock` can apply, its state is the one
-- after that block and its tip that block, and both stay so whatever events follow: no later block is
-- applied, produced or made the tip.
pub on_new_block_stops :
    (w : World) (n : Node) (b : Block) {s : State} (es : List Event)
    → IsIdle n
    → IsAcceptable w n b
    → apply_block w.store n.state b ≡ (s, true)
    → let last = after_events w (left_by (on_new_block w n b)) es in
      (last.state ≡ s) × (last.chain.last_hash ≡ b.hash) × IsStopped last
on_new_block_stops w n b {s} es idle ok applies =
    let (d, e) = Received-adopted w n b ok applies (on_new_block-Received w n b idle) in
    let m : Node =
      waiting (record n { block_mu = true; signed = record_signed n.signed b }) d s b in
    let stopped : IsStopped m = record { held = refl; chain_held = refl } in
    let h = events-SameLedger w es m stopped in
    subst
      (λ r.
        let last = after_events w (left_by r) es in
        (last.state ≡ s) × (last.chain.last_hash ≡ b.hash) × IsStopped last)
      (sym e) (h.state, ap (λ (c : Chain). c.last_hash) h.chain, SameLedger-IsStopped w h stopped)
