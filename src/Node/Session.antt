-- ===== src/Node/Session.antt =====
-- cmd/node/main.go: the messages of a connection, and the events of a node in any order. A handler is
-- one step; one that waits for ever leaves the node to the other goroutines as it is then.
pub mod Stopped
pub mod Dispatch
pub mod Conversation
pub mod Agreement
pub mod Delivery
pub mod Adoption
pub mod Working
pub mod Invariant
pub mod History
use chainlang.Prelude.{ℕ, false, Option, List, Bytes, fold}
use chainlang.Go.Word.{ℤ}
use chainlang.Core.Types.{Transaction, Block}
use chainlang.P2p.Peers.{Conn, add_peer, remove_peer}
use chainlang.Node.{World, Node, Run, finished, hung}
use chainlang.Node.Receiving.{on_new_block, on_new_tx, on_get_blocks, on_hello, on_peers}
use chainlang.Node.Syncing.{on_blocks, request_blocks}
use chainlang.Node.Producing.{produce}

-- A message whose payload could be read.
pub data Message : Type 0 where
  hello : Bytes → Message
  get_blocks : ℕ → ℤ → Message
  blocks : List Block → Message
  new_block : Block → Message
  new_tx : Transaction → Message
  get_peers : Message
  peers : List Bytes → Message

-- A connection is accepted, says something or ends, the producer's ticker fires, or the node asks its
-- peers for blocks. A message comes
-- with the fuel for the walk over the blocks and with what dialling an address gives.
pub data Event : Type 0 where
  accepted : Conn → Bytes → Event
  received : ℕ → (Bytes → Option Conn) → Message → Event
  closed : Bytes → Event
  ticked : ℕ → Event
  woken : Event

module _ (w : World) where
  -- The `switch kind` of `onConn`.
  unfoldable pub handle : ℕ → (Bytes → Option Conn) → Node → Message → Run
  unfolding on_hello on_get_blocks on_blocks on_new_block on_new_tx on_peers
  handle fuel dial n (hello addr) = finished (on_hello w dial n addr)
  handle fuel dial n (get_blocks from max) = on_get_blocks w fuel n from max
  handle fuel dial n (blocks bs) = on_blocks w n bs
  handle fuel dial n (new_block b) = on_new_block w n b
  handle fuel dial n (new_tx tx) = finished (on_new_tx w n tx)
  handle fuel dial n get_peers = finished n
  handle fuel dial n (peers addrs) = finished (on_peers w dial n addrs)

  unfoldable pub occur : Event → Node → Run
  unfolding handle add_peer remove_peer produce request_blocks
  occur (accepted c remote) n = finished (record n { peers = (add_peer n.peers c remote false).0 })
  occur (received fuel dial message) n = handle fuel dial n message
  occur (closed remote) n = finished (record n { peers = remove_peer n.peers remote })
  occur (ticked now) n = produce w now n
  occur woken n = request_blocks w n

abbrev pub left_by : Run → Node
left_by (finished n) = n
left_by (hung n) = n

-- The node after some events.
abbrev pub after_events : World → Node → List Event → Node
after_events w = fold (λ n e. left_by (occur w e n))
