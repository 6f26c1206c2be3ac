-- ===== src/Node/Session/Invariant.antt =====
-- An invariant of a node under any events: of its pool, its peers, its two locks and its tip.
use chainlang.Prelude.{
  ℕ, ◌≡◌, refl, ap, ◌∙◌, sym, subst, Bool, true, false, ◌||◌, Option, none, some, List, [], ◌∷◌,
  Bytes, if◌then◌else◌, bytes_eq, ◌==◌,
}
use chainlang.Go.Word.{ℤ, pos, positive_or}
use chainlang.Core.Types.{Transaction, Block}
use chainlang.Core.Chain.{
  Chain, held_by_writer, Outcome, returned, blocked, last_block, get_blocks_from,
}
use chainlang.Core.Chain.Free.{Leaves, get_blocks_from-Leaves, IsFree, last_block-IsFree}
use chainlang.Mempool.{Mempool, AddError, add}
use chainlang.Mempool.Invariant.{IsValidPool, add-IsValidPool}
use chainlang.P2p.Peers.{Conn}
use chainlang.P2p.Peers.Bounds.{try_connect-IsValidSet, add_peer-IsValidSet, remove_peer-IsValidSet}
use chainlang.Node.{World, Node, Run, with_chain, with_last, locking, last_or_nil}
use chainlang.Node.Receiving.{
  check_block, on_new_block, on_new_tx, added, on_hello, on_peers, on_get_blocks, reply,
}
use chainlang.Node.Syncing.{asked, request_blocks, on_blocks, sync}
use chainlang.Node.Producing.{produce, produce_after}
use chainlang.Node.Session.{
  Event, accepted, received, closed, ticked, woken, Message, hello, get_blocks, blocks, new_block,
  new_tx, get_peers, peers, handle, occur, left_by, after_events,
}
use chainlang.Node.Session.Working.{
  IsOwn, IsSound, Keeps, with_last-Ends, locking-IsSound, check_block-Ends,
}
use chainlang.Node.Session.Working.Blocks.{sync-Ends}
use chainlang.Node.Session.Working.Production.{produced-Ends}

module _ (w : World) (first : Bytes) where
  abbrev Handles : (Node → Run) → Type 0
  Handles handler = (n : Node) → IsSound w first n → IsSound w first (left_by (handler n))

  locked-IsSound :
      (n : Node) (body : Node → Run)
      → Keeps w first body
      → IsSound w first n
      → IsSound w first (left_by (locking n body))
  locked-IsSound n body k h = locking-IsSound w first n body n.block_mu refl h k

  on_blocks-IsSound : (bs : List Block) → Handles (λ n. on_blocks w n bs)
  unfolding on_blocks
  on_blocks-IsSound [] n h = h
  on_blocks-IsSound (b ∷ bs) n h =
      locked-IsSound n (λ m. with_last w m (λ k last. sync w k last b bs))
        (λ m hm.
          with_last-Ends w first m (λ k last. sync w k last b bs) hm
            (λ last. sync-Ends w first last b bs m hm))
        h

  on_new_block-IsSound : (b : Block) → Handles (λ n. on_new_block w n b)
  unfolding on_new_block
  on_new_block-IsSound b n h =
      locked-IsSound n (λ m. check_block w m b) (check_block-Ends w first b) h

  added-IsSound :
      (n : Node) (tx : Transaction) (r : Mempool × Option AddError)
      → IsValidPool w.p r.0
      → IsSound w first n
      → IsSound w first (added w n tx r)
  added-IsSound n tx (pool, none) v h = record {
    pool = v;
    peers = h.peers;
    idle = h.idle;
    own = h.own;
    stopped = h.stopped;
  }
  added-IsSound n tx (pool, some e) v h = record {
    pool = v;
    peers = h.peers;
    idle = h.idle;
    own = h.own;
    stopped = h.stopped;
  }

  on_new_tx-IsSound :
      (tx : Transaction) (n : Node) → IsSound w first n → IsSound w first (on_new_tx w n tx)
  unfolding on_new_tx
  on_new_tx-IsSound tx n h =
      added-IsSound n tx (add w.p (some n.state) n.pool tx)
        (add-IsValidPool w.p (some n.state) n.pool tx h.pool) h

  IsSound-if :
      (t : Bool) (n m : Node)
      → IsSound w first n
      → IsSound w first m
      → IsSound w first (if t then n else m)
  IsSound-if true n m h k = h
  IsSound-if false n m h k = k

  on_hello-IsSound :
      (dial : Bytes → Option Conn) (addr : Bytes) (n : Node)
      → IsSound w first n
      → IsSound w first (on_hello w dial n addr)
  unfolding on_hello
  on_hello-IsSound dial addr n h = IsSound-if (addr == [] || addr == w.listen) n _ h (record {
    pool = h.pool;
    peers = try_connect-IsValidSet dial n.peers addr h.peers;
    idle = h.idle;
    own = h.own;
    stopped = h.stopped;
  })

  on_peers-IsSound :
      (dial : Bytes → Option Conn) (addrs : List Bytes) (n : Node)
      → IsSound w first n
      → IsSound w first (on_peers w dial n addrs)
  unfolding on_peers
  on_peers-IsSound dial [] n h = h
  on_peers-IsSound dial (addr ∷ addrs) n h =
      on_peers-IsSound dial addrs (on_hello w dial n addr) (on_hello-IsSound dial addr n h)

  produce-IsSound : (now : ℕ) → Handles (produce w now)
  unfolding produce
  produce-IsSound now n h =
      locked-IsSound n (λ m. with_chain m (last_block w.json m.chain) (produce_after w now))
        (produced-Ends w first now) h

  replied-IsSound :
      (n : Node) (o : Option (List Block))
      → IsSound w first n
      → IsSound w first (left_by (reply w n o))
  replied-IsSound n none h = h
  replied-IsSound n (some []) h = h
  replied-IsSound n (some (b ∷ bs)) h = record {
    pool = h.pool;
    peers = h.peers;
    idle = h.idle;
    own = h.own;
    stopped = h.stopped;
  }

  answered-IsSound :
      {A : Type 0} (n : Node) (o : Outcome (Chain × A)) (next : Node → A → Run)
      → (IsFree n.chain → Leaves n.chain o)
      → (n.chain.mu ≡ held_by_writer → o ≡ blocked)
      → ((m : Node) (a : A) → IsSound w first m → IsSound w first (left_by (next m a)))
      → IsSound w first n
      → IsSound w first (left_by (with_chain n o next))
  answered-IsSound n blocked next keeps waits k h = h
  answered-IsSound n (returned (c, a)) next keeps waits k h =
      k (record n { chain = c }) a
        (record {
          pool = h.pool;
          peers = h.peers;
          idle = λ e. ap (λ (x : Chain). x.mu) (keeps (h.idle e)) ∙ h.idle e;
          own = λ e.
              subst (λ (x : Chain). IsOwn w first x.last_hash) (sym (keeps (h.idle e))) (h.own e);
          stopped = λ e. cc (waits (h.stopped e));
        })

  on_get_blocks-IsSound : (fuel from : ℕ) (max : ℤ) → Handles (λ n. on_get_blocks w fuel n from max)
  unfolding on_get_blocks get_blocks_from
  on_get_blocks-IsSound fuel from max n h =
      let most = pos (positive_or 50 max) in
      answered-IsSound n (get_blocks_from w.json fuel n.chain from most) (reply w)
        (λ free. get_blocks_from-Leaves w.json n.chain free fuel from most) (λ held. rw held refl)
        replied-IsSound h

  asked-IsSound :
      (n : Node) (o : Option (Option Block))
      → IsSound w first n
      → IsSound w first (left_by (asked w n (last_or_nil o)))
  asked-IsSound n none h = h
  asked-IsSound n (some none) h = h
  asked-IsSound n (some (some last)) h = record {
    pool = h.pool;
    peers = h.peers;
    idle = h.idle;
    own = h.own;
    stopped = h.stopped;
  }

  request_blocks-IsSound : Handles (request_blocks w)
  unfolding request_blocks last_block
  request_blocks-IsSound n h =
      answered-IsSound n (last_block w.json n.chain) (λ m last. asked w m (last_or_nil last))
        (λ free. subst (Leaves n.chain) (sym (last_block-IsFree w.json n.chain free)) refl)
        (λ held. rw held refl) asked-IsSound h

  handle-IsSound :
      (fuel : ℕ) (dial : Bytes → Option Conn) (message : Message)
      → Handles (λ n. handle w fuel dial n message)
  unfolding handle
  handle-IsSound fuel dial (hello addr) n h = on_hello-IsSound dial addr n h
  handle-IsSound fuel dial (get_blocks from max) n h = on_get_blocks-IsSound fuel from max n h
  handle-IsSound fuel dial (blocks bs) n h = on_blocks-IsSound bs n h
  handle-IsSound fuel dial (new_block b) n h = on_new_block-IsSound b n h
  handle-IsSound fuel dial (new_tx tx) n h = on_new_tx-IsSound tx n h
  handle-IsSound fuel dial get_peers n h = h
  handle-IsSound fuel dial (peers addrs) n h = on_peers-IsSound dial addrs n h

  occur-IsSound : (e : Event) → Handles (occur w e)
  unfolding occur
  occur-IsSound (accepted c remote) n h = record {
    pool = h.pool;
    peers = add_peer-IsValidSet n.peers c remote false h.peers;
    idle = h.idle;
    own = h.own;
    stopped = h.stopped;
  }
  occur-IsSound (received fuel dial message) n h = handle-IsSound fuel dial message n h
  occur-IsSound (closed remote) n h = record {
    pool = h.pool;
    peers = remove_peer-IsValidSet n.peers remote h.peers;
    idle = h.idle;
    own = h.own;
    stopped = h.stopped;
  }
  occur-IsSound (ticked now) n h = produce-IsSound now n h
  occur-IsSound woken n h = request_blocks-IsSound n h

  -- After any events, a node that was sound is sound.
  pub after_events-IsSound :
      (es : List Event) (n : Node) → IsSound w first n → IsSound w first (after_events w n es)
  after_events-IsSound [] n h = h
  after_events-IsSound (e ∷ es) n h =
      after_events-IsSound es (left_by (occur w e n)) (occur-IsSound e n h)
