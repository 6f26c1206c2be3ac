-- ===== src/Node/Session/History/Quiet.antt =====
-- The events that bring a node no block of a peer: but for the producer's tick they leave chain and state.
use chainlang.Prelude.{
  ℕ, ◌≡◌, refl, ap, sym, ◌∙◌, subst, Bool, true, false, Option, none, some, List, [], ◌∷◌, Bytes,
}
use chainlang.Go.Word.{ℤ, pos, positive_or}
use chainlang.Core.Types.{Block}
use chainlang.Core.Chain.{Chain, Outcome, returned, blocked, get_blocks_from}
use chainlang.Core.Chain.Free.{Leaves, get_blocks_from-Leaves, last_block-IsFree, last_read}
use chainlang.P2p.Peers.{Conn}
use chainlang.Node.{World, Node, with_chain, last_or_nil}
use chainlang.Node.Receiving.{on_get_blocks, reply}
use chainlang.Node.Receiving.Outcome.{IsIdle}
use chainlang.Node.Syncing.{asked, request_blocks}
use chainlang.Node.Session.{
  Event, accepted, received, closed, ticked, woken, Message, hello, get_blocks, blocks, new_block,
  new_tx, get_peers, peers, handle, occur, left_by,
}
use chainlang.Node.Session.Stopped.{
  SameLedger, on_new_tx-SameLedger, on_hello-SameLedger, on_peers-SameLedger,
}

-- The message, or the event, carries blocks.
abbrev carries_blocks : Message → Bool
carries_blocks (blocks bs) = true
carries_blocks (new_block b) = true
carries_blocks (hello addr) = false
carries_blocks (get_blocks from max) = false
carries_blocks (new_tx tx) = false
carries_blocks get_peers = false
carries_blocks (peers addrs) = false

abbrev pub brings_blocks : Event → Bool
brings_blocks (received fuel dial message) = carries_blocks message
brings_blocks (accepted c remote) = false
brings_blocks (closed remote) = false
brings_blocks (ticked now) = false
brings_blocks woken = false

abbrev pub is_tick : Event → Bool
is_tick (ticked now) = true
is_tick (received fuel dial message) = false
is_tick (accepted c remote) = false
is_tick (closed remote) = false
is_tick woken = false

pub SameLedger-IsIdle : {n m : Node} → SameLedger n m → IsIdle n → IsIdle m
SameLedger-IsIdle h idle = record {
  unlocked = h.block_mu ∙ idle.unlocked;
  free = ap (λ (c : Chain). c.mu) h.chain ∙ idle.free;
}

module _ (w : World) (n : Node) (idle : IsIdle n) where
  unmoved : SameLedger n n
  unmoved = record { block_mu = refl; chain = refl; state = refl }

  replied-SameLedger :
      (c : Chain) (o : Option (List Block))
      → c ≡ n.chain
      → SameLedger n (left_by (reply w (record n { chain = c }) o))
  replied-SameLedger c none e = record { block_mu = refl; chain = e; state = refl }
  replied-SameLedger c (some []) e = record { block_mu = refl; chain = e; state = refl }
  replied-SameLedger c (some (b ∷ bs)) e = record { block_mu = refl; chain = e; state = refl }

  answered-SameLedger :
      (o : Outcome (Chain × Option (List Block)))
      → Leaves n.chain o
      → SameLedger n (left_by (with_chain n o (λ m found. reply w m found)))
  answered-SameLedger blocked e = unmoved
  answered-SameLedger (returned (c, found)) e = replied-SameLedger c found e

  on_get_blocks-SameLedger :
      (fuel from : ℕ) (max : ℤ) → SameLedger n (left_by (on_get_blocks w fuel n from max))
  unfolding on_get_blocks
  on_get_blocks-SameLedger fuel from max =
      let most = pos (positive_or 50 max) in
      answered-SameLedger (get_blocks_from w.json fuel n.chain from most)
        (get_blocks_from-Leaves w.json n.chain idle.free fuel from most)

  asked-SameLedger : (o : Option Block) → SameLedger n (left_by (asked w n o))
  asked-SameLedger none = unmoved
  asked-SameLedger (some last) = record { block_mu = refl; chain = refl; state = refl }

  request_blocks-SameLedger : SameLedger n (left_by (request_blocks w n))
  unfolding request_blocks
  request_blocks-SameLedger =
      subst (λ o. SameLedger n (left_by (with_chain n o (λ m last. asked w m (last_or_nil last)))))
        (sym (last_block-IsFree w.json n.chain idle.free))
        (asked-SameLedger (last_or_nil (last_read w.json n.chain)))

  handle-SameLedger :
      (fuel : ℕ) (dial : Bytes → Option Conn) (message : Message)
      → carries_blocks message ≡ false
      → SameLedger n (left_by (handle w fuel dial n message))
  unfolding handle
  handle-SameLedger fuel dial (hello addr) e = on_hello-SameLedger w dial n addr
  handle-SameLedger fuel dial (get_blocks from max) e = on_get_blocks-SameLedger fuel from max
  handle-SameLedger fuel dial (blocks bs) e = cc e
  handle-SameLedger fuel dial (new_block b) e = cc e
  handle-SameLedger fuel dial (new_tx tx) e = on_new_tx-SameLedger w n tx
  handle-SameLedger fuel dial get_peers e = unmoved
  handle-SameLedger fuel dial (peers addrs) e = on_peers-SameLedger w dial n addrs

  -- An event at an idle node that brings no block and is no tick.
  pub occur-quiet :
      (e : Event)
      → brings_blocks e ≡ false
      → is_tick e ≡ false
      → SameLedger n (left_by (occur w e n))
  unfolding occur
  occur-quiet (accepted c remote) h k = record { block_mu = refl; chain = refl; state = refl }
  occur-quiet (received fuel dial message) h k = handle-SameLedger fuel dial message h
  occur-quiet (closed remote) h k = record { block_mu = refl; chain = refl; state = refl }
  occur-quiet (ticked now) h k = cc k
  occur-quiet woken h k = request_blocks-SameLedger
